-- ===== src/Tests/Sessions.antt =====
-- Two session keys with one file name.
use ottie.Providers.Protocol.{Message}
use ottie.Prelude.{ℕ, ◌≡◌, refl, String, Bool, true, some, [], ◌∷◌, str_eq, if◌then◌else◌}
use ottie.Prelude.Int.{pos}
use ottie.Sessions.{Session, Sessions}
use ottie.Sessions.Store.{truncates, apply, view, spec, apply-refines}
use ottie.Sessions.Files.{SessionJson, stored_session}

abbrev hello : Message ℕ
hello = record {
  role = "user";
  content = "hi";
  media = [];
  reasoning_content = "";
  system_parts = [];
  tool_calls = [];
  tool_call_id = "";
}

abbrev chat : Session (Message ℕ)
chat = record {
  key = "chat:1";
  messages = hello ∷ hello ∷ [];
  summary = "";
  created = 1;
  updated = 2;
}

abbrev sessions : Sessions (Message ℕ)
sessions = ("chat:1", chat) ∷ []

apply-refines_example : view "chat:1" (apply 3 (truncates "chat:1" (pos 1)) sessions) ≡ (
    if str_eq "chat:1" "chat:1"
    then spec (truncates "chat:1" (pos 1)) (view "chat:1" sessions)
    else view "chat:1" sessions)
apply-refines_example = apply-refines 3 (truncates "chat:1" (pos 1)) "chat:1" sessions

abbrev json : SessionJson ℕ (Session (Message ℕ))
json = record { encode = λ s. s; decode = λ s. some (stored_session s); decode-encode = λ s. refl }

abbrev all_local : String → Bool
all_local name = true
