-- ===== src/Drafts/Bounds.antt =====
-- What `jsonWithinBounds` of apps/server/internal/service/content.go bounds.
use Prim.Native.String.{len}
use Prim.Native.Nat.{max}
use m_pack_station.Base.{ℕ, Bool, true, ◌&&◌, leb, ◌+◌, suc, ◌≡◌, arith, ap}
use m_pack_station.Drafts.Json.{
  Json, null, boolean, number, string, array, object, Items, no_items, item, Members, no_members,
  member, item_count, member_count, json_within_bounds, items_within_bounds, members_within_bounds,
}

-- How many containers stand around the deepest value; `nested_` of an empty container is 0.
unfoldable mutual
  pub nesting : Json → ℕ
  nesting (object ms) = members_nesting ms
  nesting (array xs) = items_nesting xs
  nesting _ = 0

  pub items_nesting : Items → ℕ
  items_nesting no_items = 0
  items_nesting (item x xs) = max (suc (nesting x)) (items_nesting xs)

  pub members_nesting : Members → ℕ
  members_nesting no_members = 0
  members_nesting (member k x xs) = max (suc (nesting x)) (members_nesting xs)

-- Every container, text and key is small, whatever its depth.
unfoldable mutual
  pub narrow : Json → Bool
  narrow (object ms) = leb (member_count ms) 128 && narrow_members ms
  narrow (array xs) = leb (item_count xs) 2048 && narrow_items xs
  narrow (string s) = leb (len s) 4096
  narrow _ = true

  pub narrow_items : Items → Bool
  narrow_items no_items = true
  narrow_items (item x xs) = narrow x && narrow_items xs

  pub narrow_members : Members → Bool
  narrow_members no_members = true
  narrow_members (member k x xs) = leb (len k) 256 && (narrow x && narrow_members xs)

leb_max : (d a b : ℕ) → leb (d + max (suc a) b) 16 ≡ (leb (d + 1 + a) 16 && leb (d + b) 16)
leb_max d a b = ground arith

-- Two facts about parts of a value, joined under the test of the whole depth.
join :
    (x l r p q n m whole : Bool)
    → x ≡ (p && n)
    → (l && r) ≡ (q && m)
    → whole ≡ (p && q)
    → (l && (x && r)) ≡ (whole && (n && m))
join x l r p q n m whole e h w = ground arith

-- A further test on both sides.
widen : (l k r q n : Bool) → (l && r) ≡ (q && n) → (l && (k && r)) ≡ (q && (k && n))
widen l k r q n e = ground arith

leb_zero : (d : ℕ) → leb d 16 ≡ leb (d + 0) 16
leb_zero d = ground arith

plain : (d : ℕ) (b : Bool) → (leb d 16 && b) ≡ (leb (d + 0) 16 && b)
plain d b = ap (λ x. x && b) (leb_zero d)

bare : (d : ℕ) → leb d 16 ≡ (leb (d + 0) 16 && true)
bare d = ground arith

mutual
  unfolding json_within_bounds nesting narrow

  json-bounds : (d : ℕ) (j : Json) → json_within_bounds d j ≡ (leb (d + nesting j) 16 && narrow j)
  json-bounds d (object ms) =
      widen (leb d 16) (leb (member_count ms) 128) (members_within_bounds (d + 1) ms)
        (leb (d + members_nesting ms) 16) (narrow_members ms) (members-bounds d ms)
  json-bounds d (array xs) =
      widen (leb d 16) (leb (item_count xs) 2048) (items_within_bounds (d + 1) xs)
        (leb (d + items_nesting xs) 16) (narrow_items xs) (items-bounds d xs)
  json-bounds d (string s) = plain d (leb (len s) 4096)
  json-bounds d null = bare d
  json-bounds d (boolean b) = bare d
  json-bounds d (number n) = bare d

  items-bounds :
      (d : ℕ) (xs : Items)
      → (leb d 16 && items_within_bounds (d + 1) xs)
        ≡ (leb (d + items_nesting xs) 16 && narrow_items xs)
  items-bounds d no_items = plain d true
  items-bounds d (item x xs) =
      join (json_within_bounds (d + 1) x) (leb d 16) (items_within_bounds (d + 1) xs)
        (leb (d + 1 + nesting x) 16) (leb (d + items_nesting xs) 16) (narrow x) (narrow_items xs)
        (leb (d + items_nesting (item x xs)) 16) (json-bounds (d + 1) x) (items-bounds d xs)
        (leb_max d (nesting x) (items_nesting xs))

  members-bounds :
      (d : ℕ) (ms : Members)
      → (leb d 16 && members_within_bounds (d + 1) ms)
        ≡ (leb (d + members_nesting ms) 16 && narrow_members ms)
  members-bounds d no_members = plain d true
  members-bounds d (member k x xs) =
      widen (leb d 16) (leb (len k) 256)
        (json_within_bounds (d + 1) x && members_within_bounds (d + 1) xs)
        (leb (d + members_nesting (member k x xs)) 16) (narrow x && narrow_members xs)
        (join (json_within_bounds (d + 1) x) (leb d 16) (members_within_bounds (d + 1) xs)
          (leb (d + 1 + nesting x) 16) (leb (d + members_nesting xs) 16) (narrow x)
          (narrow_members xs) (leb (d + members_nesting (member k x xs)) 16) (json-bounds (d + 1) x)
          (members-bounds d xs) (leb_max d (nesting x) (members_nesting xs)))

-- `jsonWithinBounds` accepts a value at a depth just if the deepest value inside it lies at depth 16
-- at most, and every object, array, text and key in it is small.
pub json_within_bounds-nesting :
    (d : ℕ) (j : Json) → json_within_bounds d j ≡ (leb (d + nesting j) 16 && narrow j)
json_within_bounds-nesting d j = json-bounds d j
