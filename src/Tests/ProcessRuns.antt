-- ===== src/Tests/ProcessRuns.antt =====
-- Rounds of reloading and callbacks, and the theorems on them at concrete inputs.
use alib_fetcher.Base.{
  ℕ, ◌≡◌, refl, List, [], ◌∷◌, Text, text, Option, none, some, Bool, true, false, ℤ, pos, keep, map,
  ◌==◌, text_eq, any, contains, length, has_prefix,
}
use alib_fetcher.App.Ports.{done}
use alib_fetcher.Process.Reload.{
  ReloadSnapshot, Environment, Generation, same_reload_snapshot, new_recipient_startup_chats,
  start_service_generation, apply_latest, reload_latest, reload_candidate, reload_generation,
}
use alib_fetcher.Process.Reload.Rounds.{Settled, reload_generation-Settled}
use alib_fetcher.Process.Runner.{new_digest_runner, try_start_refresh}
use alib_fetcher.Process.Routing.{
  Callback, refresh_callback_data, CallbackRecipient, refreshed, matches_expected_chat,
  match_recipients, handle_grouped_callback, handle_refresh_callback, refresh_started, add_to_group,
  callback_groups, CallbackGroup,
}
use alib_fetcher.Process.Routing.Answers.{answer_to, is_meant, handle_grouped_callback-answer_to}

-- The configuration file holds a second chat now.
abbrev with_chats : List Text → ReloadSnapshot ℕ ℕ
with_chats chats = record {
  key = none;
  settings = length chats;
  run_on_startup = true;
  chat_ids = chats;
}

abbrev file : Environment ℕ ℕ ℕ ℕ
file = record {
  reload = λ w. (done (with_chats (text "a" ∷ text "b" ∷ [])), w);
  prepare = λ snapshot w. (done tt, w);
  schedule = λ snapshot. none;
  same_key = λ k l. true;
  same_settings = λ s t. s == t;
  cancelled = λ w. false;
  message = λ e. text "bad";
}

abbrev first_generation : Generation file
first_generation = record { snapshot = with_chats (text "a" ∷ []); startup_chats = [] }

-- Only the new chat gets a digest at once.
second_chat_only :
    (reload_generation file first_generation [] 0).running
    ≡ some
        (record { snapshot = with_chats (text "a" ∷ text "b" ∷ []); startup_chats = text "b" ∷ [] })
unfolding reload_generation reload_candidate reload_latest apply_latest start_service_generation
    new_recipient_startup_chats same_reload_snapshot keep contains any text_eq
second_chat_only = refl

reload_generation-Settled_example :
    Settled file first_generation [] 0 (reload_generation file first_generation [] 0)
reload_generation-Settled_example = reload_generation-Settled file first_generation [] 0

abbrev pressed : Callback
pressed = record {
  id = text "q";
  callback_data = refresh_callback_data;
  message_chat_username = text "books";
  message_chat_id = pos 7;
  message_id = pos 1;
}

abbrev recipients : List CallbackRecipient
recipients =
    record { runner = 0; chat_id = text "@other" }
    ∷ record { runner = 1; chat_id = text "@books" }
    ∷ []

abbrev no_numbers : Text → Option ℤ
no_numbers s = none

second_recipient :
    handle_grouped_callback no_numbers text_eq recipients pressed
    ≡ refreshed (record { runner = 1; chat_id = text "@books" })
unfolding handle_grouped_callback match_recipients matches_expected_chat text_eq has_prefix
second_recipient = refl

handle_grouped_callback-answer_to_example :
    handle_grouped_callback no_numbers text_eq recipients pressed
    ≡ answer_to (keep (is_meant no_numbers text_eq pressed) recipients)
handle_grouped_callback-answer_to_example =
    (handle_grouped_callback-answer_to no_numbers text_eq recipients pressed).0 refl

idle_runner_starts : (handle_refresh_callback new_digest_runner).0 ≡ refresh_started
unfolding handle_refresh_callback try_start_refresh
idle_runner_starts = refl

abbrev same_number : ℕ → ℕ → Bool
same_number m n = m == n

abbrev clients : List (Option ℕ × CallbackRecipient)
clients =
    (some 5, record { runner = 0; chat_id = text "a" })
    ∷ (none, record { runner = 1; chat_id = text "b" })
    ∷ (some 5, record { runner = 2; chat_id = text "c" })
    ∷ []

shared_client_grouped :
    map
      (λ (group : CallbackGroup same_number). length group.recipients)
      (callback_groups same_number clients [])
    ≡ 2 ∷ []
unfolding callback_groups add_to_group
shared_client_grouped = refl
