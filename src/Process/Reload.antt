-- ===== src/Process/Reload.antt =====
-- internal/process/reload.go: one round of `RunReloadable`, `reloadGeneration`.
pub mod Rounds
use alib_fetcher.Base.{
  List, [], ◌∷◌, Text, Option, none, some, Bool, true, false, not, if◌then◌else◌, keep, contains,
  text_eq,
}
use alib_fetcher.App.Ports.{Attempt, failed, done}

-- `ReloadSnapshot`, with the chats of its recipients.
pub record ReloadSnapshot (Key Settings : Type 0) : Type 0 where
  pub key : Option Key
  pub settings : Settings
  pub run_on_startup : Bool
  pub chat_ids : List Text

-- What the round is given: `reload` and `Prepare`, the comparisons of `reflect.DeepEqual`, the check
-- of the schedule in `newSchedulerForRunners`, and the polls of the context.
pub record Environment (World E Key Settings : Type 0) : Type 0 where
  pub reload : World → Attempt E (ReloadSnapshot Key Settings) × World
  pub prepare : ReloadSnapshot Key Settings → World → Attempt E (Unit {0}) × World
  pub schedule : ReloadSnapshot Key Settings → Option E
  pub same_key : Option Key → Option Key → Bool
  pub same_settings : Settings → Settings → Bool
  pub cancelled : World → Bool
  pub message : E → Text

-- The error of a round: the context's, or that of a generation which cannot start.
pub data ReloadError (E : Type 0) : Type 0 where
  context_done : ReloadError E
  start_failed : E → ReloadError E

module _ {World E Key Settings : Type 0} (env : Environment World E Key Settings) where
  abbrev pub Snapshot : Type 0
  Snapshot = ReloadSnapshot Key Settings

  -- A generation that runs: its snapshot, and the chats whose digest is run at once.
  pub record Generation : Type 0 where
    pub snapshot : Snapshot
    pub startup_chats : List Text

  -- What a round returns. No generation runs in the end if there is an error.
  pub record Round : Type 0 where
    pub running : Option Generation
    pub last_error : Text
    pub error : Option (ReloadError E)
    pub world : World

  abbrev has_key : Option Key → Bool
  has_key none = false
  has_key (some key) = true

  unfoldable pub same_reload_snapshot : Snapshot → Snapshot → Bool
  same_reload_snapshot left right =
      if has_key left.key
      then env.same_key left.key right.key
      else if has_key right.key
      then env.same_key left.key right.key
      else env.same_settings left.settings right.settings

  unfoldable pub new_recipient_startup_chats : Snapshot → Snapshot → List Text
  new_recipient_startup_chats previous next =
      if next.run_on_startup
      then keep (λ chat. not (contains previous.chat_ids chat)) next.chat_ids
      else []

  unfoldable pub initial_startup_chats : Snapshot → List Text
  initial_startup_chats snapshot = if snapshot.run_on_startup then snapshot.chat_ids else []

  -- `startServiceGeneration`, of a schedule that was checked.
  abbrev started : Option E → Snapshot → List Text → Text → World → Round
  started none snapshot startup_chats last_error w = record {
    running = some (record { snapshot = snapshot; startup_chats = startup_chats });
    last_error = last_error;
    error = none;
    world = w;
  }
  started (some e) snapshot startup_chats last_error w = record {
    running = none;
    last_error = last_error;
    error = some (start_failed e);
    world = w;
  }

  unfoldable pub start_service_generation : Snapshot → List Text → Text → World → Round
  start_service_generation snapshot startup_chats last_error w =
      started (env.schedule snapshot) snapshot startup_chats last_error w

  -- The generation has stopped: `return generation, lastReloadError, ctx.Err()`.
  abbrev interrupted : Text → World → Round
  interrupted last_error w = record {
    running = none;
    last_error = last_error;
    error = some context_done;
    world = w;
  }

  unfoldable pub apply_latest : Snapshot → Snapshot → Attempt E (Unit {0}) × World → Round
  unfolding start_service_generation new_recipient_startup_chats
  apply_latest previous latest (failed e, w) =
      start_service_generation previous [] (env.message e) w
  apply_latest previous latest (done u, w) =
      start_service_generation latest (new_recipient_startup_chats previous latest) [] w

  -- The second reading, once the generation has stopped.
  unfoldable pub reload_latest : Snapshot → Attempt E Snapshot × World → Round
  unfolding apply_latest same_reload_snapshot
  reload_latest previous (failed e, w) =
      if env.cancelled w
      then interrupted [] w
      else start_service_generation previous [] (env.message e) w
  reload_latest previous (done latest, w) =
      if same_reload_snapshot previous latest
      then start_service_generation previous [] [] w
      else apply_latest previous latest (env.prepare latest w)

  -- The first reading, while the generation runs.
  unfoldable pub reload_candidate : Generation → Text → Attempt E Snapshot × World → Round
  unfolding reload_latest
  reload_candidate generation last_error (failed e, w) =
      if env.cancelled w
      then interrupted last_error w
      else record { running = some generation; last_error = env.message e; error = none; world = w }
  reload_candidate generation last_error (done candidate, w) =
      if same_reload_snapshot generation.snapshot candidate
      then record { running = some generation; last_error = []; error = none; world = w }
      else reload_latest generation.snapshot (env.reload w)

  unfoldable pub reload_generation : Generation → Text → World → Round
  unfolding reload_candidate
  reload_generation generation last_error w = reload_candidate generation last_error (env.reload w)
