-- ===== src/Drafts/Json.antt =====
-- The JSON values that encoding/json hands to apps/server/internal/service/content.go, and its
-- `jsonWithinBounds`.
use Prim.Native.String.{len}
use m_pack_station.Base.{
  ℕ, String, Bool, true, false, ◌&&◌, leb, ◌==◌, ◌+◌, ◌*◌, ◌^◌, suc, str_eq, not,
}

-- A finite float64: the numerator over 2 ^ scale, under its sign.
pub record Number : Type 0 where
  pub negative : Bool
  pub numerator : ℕ
  pub scale : ℕ

-- The members of an object stand in the order of their keys, each key once: a Go map, as
-- json.Marshal writes it.
mutual
  pub data Json : Type 0 where
    null : Json
    boolean : Bool → Json
    number : Number → Json
    string : String → Json
    array : Items → Json
    object : Members → Json

  pub data Items : Type 0 where
    no_items : Items
    item : Json → Items → Items

  pub data Members : Type 0 where
    no_members : Members
    member : String → Json → Members → Members

abbrev pub bool_eq : Bool → Bool → Bool
bool_eq true b = b
bool_eq false b = not b

-- Two numbers that json.Marshal writes alike; a negative zero keeps its sign.
abbrev pub number_eq : Number → Number → Bool
number_eq a b =
    bool_eq a.negative b.negative && a.numerator * 2 ^ b.scale == b.numerator * 2 ^ a.scale

-- Whether json.Marshal writes two values alike.
unfoldable mutual
  pub json_eq : Json → Json → Bool
  json_eq null null = true
  json_eq (boolean a) (boolean b) = bool_eq a b
  json_eq (number a) (number b) = number_eq a b
  json_eq (string a) (string b) = str_eq a b
  json_eq (array a) (array b) = items_eq a b
  json_eq (object a) (object b) = members_eq a b
  json_eq _ _ = false

  pub items_eq : Items → Items → Bool
  items_eq no_items no_items = true
  items_eq (item a xs) (item b ys) = json_eq a b && items_eq xs ys
  items_eq _ _ = false

  pub members_eq : Members → Members → Bool
  members_eq no_members no_members = true
  members_eq (member k a xs) (member l b ys) = str_eq k l && json_eq a b && members_eq xs ys
  members_eq _ _ = false

abbrev pub item_count : Items → ℕ
item_count no_items = 0
item_count (item x xs) = suc (item_count xs)

abbrev pub member_count : Members → ℕ
member_count no_members = 0
member_count (member k x xs) = suc (member_count xs)

-- jsonWithinBounds
unfoldable mutual
  pub json_within_bounds : ℕ → Json → Bool
  json_within_bounds depth (object ms) =
      leb depth 16 && (leb (member_count ms) 128 && members_within_bounds (depth + 1) ms)
  json_within_bounds depth (array xs) =
      leb depth 16 && (leb (item_count xs) 2048 && items_within_bounds (depth + 1) xs)
  json_within_bounds depth (string s) = leb depth 16 && leb (len s) 4096
  json_within_bounds depth _ = leb depth 16

  pub items_within_bounds : ℕ → Items → Bool
  items_within_bounds depth no_items = true
  items_within_bounds depth (item x xs) = json_within_bounds depth x && items_within_bounds depth xs

  pub members_within_bounds : ℕ → Members → Bool
  members_within_bounds depth no_members = true
  members_within_bounds depth (member k x xs) =
      leb (len k) 256 && (json_within_bounds depth x && members_within_bounds depth xs)
