-- ===== src/Publishing/Examples.antt =====
-- Concrete publications of apps/server/internal/service/publish.go.
use Prim.Native.String.{◌++◌ as text_append}
use m_pack_station.Base.{ℕ, String, List, ◌≡◌, suc, some, true, ◌∷◌, refl, [], false, zero}
use m_pack_station.Publishing.Store.{find_release, set_release_publishing, reserved}
use m_pack_station.Publishing.Model.{
  Store, Target, ReleaseStatus, Release, World, PublishClock, Artifact, PublishInput, pending,
  Remote, publishing, succeeded, Answer, constraint, not_retryable,
}
use m_pack_station.Publishing.Once.{NoRepeat}
use m_pack_station.Publishing.Repeats.{
  PublishCall, run_publishing, new_store, run_publishing-NoRepeat, publish_step, polls, publishes,
}
use m_pack_station.Publishing.Service.{empty_state}
use m_pack_station.Publishing.Publish.{
  poll_release, publish_once, other_target, retry_publish, publish_pack,
}
use m_pack_station.Publishing.Outcomes.{local_release-stuck, poll_release-forgets}

abbrev ids : ℕ → String
ids zero = "r"
ids (suc n) = text_append "r" (ids n)

abbrev jar : Artifact
jar = record { id = "a"; pack_id = "p"; pack_version_id = "v"; path = "out.mrpack"; ready = true }

abbrev answer : Remote
answer = record { id = "remote"; status = " Processing "; url = "https://example.org"; detail = "" }

abbrev world : World
world = record {
  id = ids;
  has_version = λ pack version. true;
  artifact = λ id. some jar;
  intact = λ a. true;
  adapter = λ provider.
      some (record { publish = λ target path. some answer; remote_status = λ id. some answer });
}

abbrev publish_clock : PublishClock
publish_clock = record { creating = 1; reserving = 2; finishing = 3 }

abbrev input : String → String → PublishInput
input provider key = record {
  pack_id = "p";
  pack_version_id = "v";
  provider = provider;
  artifact_id = "a";
  idempotency_key = key;
  target = record { project_id = "mod"; version_id = "1" };
}

-- The same key twice, a poll, and another key.
abbrev publications : List PublishCall
publications =
    publishes world publish_clock (input "modrinth" "k")
    ∷ publishes world publish_clock (input "modrinth" "k")
    ∷ polls world 9 "r"
    ∷ publishes world publish_clock (input "modrinth" "other")
    ∷ []

run_publishing-NoRepeat_example : NoRepeat (run_publishing publications new_store).published
run_publishing-NoRepeat_example = run_publishing-NoRepeat publications

-- Two releases were asked for: the first repeat and the poll asked for none.
publications_made : (run_publishing publications new_store).published ≡ ("rrr" ∷ "r" ∷ [])
unfolding run_publishing publish_step publish_pack poll_release new_store
publications_made = refl

abbrev local_row : String → ReleaseStatus → String → Release
local_row id status remote = record {
  id = id;
  pack_id = "p";
  pack_version_id = "v";
  provider = "local";
  status = status;
  remote_id = remote;
  idempotency_key = id;
  remote_state = empty_state;
  artifact_id = "a";
  error_code = "";
  error_message = "";
  created_at = 1;
  updated_at = 1;
}

-- The artifact was released locally before, under another key.
abbrev released : Store
released = record {
  releases = local_row "second" pending "" ∷ local_row "first" succeeded "a" ∷ [];
  generated = 2;
  published = [];
}

found_second : find_release "second" released.releases ≡ some (local_row "second" pending "")
unfolding find_release
found_second = refl

local_release-stuck_example :
    let s = (set_release_publishing "second" 2 released).0 in
    let r = local_row "second" pending "" in
    let t = (input "local" "second").target in
    (publish_once world publish_clock r jar t released ≡ (s, Answer.fails constraint))
    × (find_release "second" s.releases ≡ some (reserved 2 r))
    × (retry_publish world publish_clock "second" t s ≡ (s, Answer.fails not_retryable))
    × (poll_release world 3 "second" s ≡ (s, Answer.shows (reserved 2 r)))
local_release-stuck_example =
    local_release-stuck world publish_clock (local_row "second" pending "") jar
      (input "local" "second").target released refl refl found_second refl refl

abbrev sent : Release
sent = record (local_row "r" publishing "remote") {
  provider = "modrinth";
  remote_state = record {
    request = some (record { project_id = "mod"; version_id = "1" });
    fields = [];
  };
}

abbrev waiting : Store
waiting = record { releases = sent ∷ []; generated = 1; published = "r" ∷ [] }

found_sent : find_release "r" waiting.releases ≡ some sent
unfolding find_release
found_sent = refl

abbrev elsewhere : Target
elsewhere = record { project_id = "other"; version_id = "2" }

poll_release-forgets_example :
    (r : Release) × (find_release "r" (poll_release world 9 "r" waiting).0.releases ≡ some r)
    × (other_target elsewhere r.remote_state ≡ false)
poll_release-forgets_example =
    poll_release-forgets world 9 "r" waiting elsewhere found_sent refl refl refl refl refl
