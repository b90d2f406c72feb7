-- ===== src/Process/Reload/Rounds.antt =====
-- internal/process/reload.go: which generation runs after a round.
use alib_fetcher.Base.{
  ◌≡◌, refl, List, [], ◌∷◌, Text, none, some, Bool, true, false, not, ◌⊎◌, keep, contains, arith,
  inl, inr, Bool-cases, Option-cases, ◌&&◌, any, text_eq, text_eq_iff,
}
use alib_fetcher.App.Ports.{Attempt, failed, done}
use alib_fetcher.Process.Reload.{
  Environment, context_done, start_failed, Snapshot, Generation, Round, same_reload_snapshot,
  new_recipient_startup_chats, start_service_generation, apply_latest, reload_latest,
  reload_candidate, reload_generation,
}

contains-keep_others :
    (known chats : List Text) (j : Text)
    → contains (keep (λ chat. not (contains known chat)) chats) j
      ≡ (contains chats j && not (contains known j))
unfolding contains any keep
contains-keep_others known [] j = refl
contains-keep_others known (chat ∷ chats) j = elim (Bool-cases (text_eq j chat)) [
  | inl same ↦
      rw (← (text_eq_iff j chat).0 same)
        (ground (arith, (text_eq_iff j j).1 refl, contains-keep_others known chats j))
  | inr other ↦ ground (arith, other, contains-keep_others known chats j)
]

module _ {World E Key Settings : Type 0} (env : Environment World E Key Settings) where
  -- The chats that get a digest at once: if the snapshot asks for it, those that are new in it.
  abbrev pub StartsNew : Snapshot env → Snapshot env → List Text → Type 0
  StartsNew previous latest startup_chats =
      (chat : Text)
      → contains startup_chats chat ≡ (
          latest.run_on_startup
          && (contains latest.chat_ids chat && not (contains previous.chat_ids chat)))

  -- Two snapshots agree in their keys if one of them has a key, and else in their settings.
  abbrev pub HaveNoKeys : Snapshot env → Snapshot env → Type 0
  HaveNoKeys left right = (left.key ≡ none) × (right.key ≡ none)

  abbrev pub AreSame : Bool → Snapshot env → Snapshot env → Type 0
  AreSame answer left right =
      (HaveNoKeys left right × (env.same_settings left.settings right.settings ≡ answer))
      ⊎ (¬ HaveNoKeys left right × (env.same_key left.key right.key ≡ answer))

  -- The second reading does not lead away from the old snapshot: it fails, it is the same again, or
  -- the snapshot that it finds cannot be prepared.
  pub data GoesBack (old : Snapshot env) : World → Text → World → Type 0 where
    reading_failed :
        {w w' : World} {e : E}
        → env.reload w ≡ (failed e, w')
        → env.cancelled w' ≡ false
        → GoesBack old w (env.message e) w'
    unchanged_again :
        {w w' : World} {latest : Snapshot env}
        → env.reload w ≡ (done latest, w')
        → AreSame true old latest
        → GoesBack old w [] w'
    preparing_failed :
        {w w' w'' : World} {latest : Snapshot env} {e : E}
        → env.reload w ≡ (done latest, w')
        → AreSame false old latest
        → env.prepare latest w' ≡ (failed e, w'')
        → GoesBack old w (env.message e) w''

  -- The second reading finds another snapshot, which is prepared.
  pub record Renews (old : Snapshot env) (w : World) (latest : Snapshot env) (w' : World)
      : Type 0 where
    pub between : World
    pub read : env.reload w ≡ (done latest, between)
    pub differs : AreSame false old latest
    pub prepared : env.prepare latest between ≡ (done tt, w')

  -- The first reading finds another snapshot, so that the generation is stopped.
  pub record Changes (old : Snapshot env) (w w' : World) : Type 0 where
    pub candidate : Snapshot env
    pub read : env.reload w ≡ (done candidate, w')
    pub differs : AreSame false old candidate

  -- How a round ends, and when.
  pub data Settled (old : Generation env) (last_error : Text) (w : World) : Round env → Type 0 where
    -- the first reading fails: nothing is stopped
    kept :
        {e : E} {w' : World}
        → env.reload w ≡ (failed e, w')
        → env.cancelled w' ≡ false
        → Settled old last_error w
            (record { running = some old; last_error = env.message e; error = none; world = w' })
    -- the first reading finds what runs: nothing is stopped
    unchanged :
        {candidate : Snapshot env} {w' : World}
        → env.reload w ≡ (done candidate, w')
        → AreSame true old.snapshot candidate
        → Settled old last_error w
            (record { running = some old; last_error = []; error = none; world = w' })
    -- the old snapshot runs again, and no chat is served at once
    restored :
        {message : Text} {w' w'' : World}
        → Changes old.snapshot w w'
        → GoesBack old.snapshot w' message w''
        → env.schedule old.snapshot ≡ none
        → Settled old last_error w (record {
          running = some (record { snapshot = old.snapshot; startup_chats = [] });
          last_error = message;
          error = none;
          world = w'';
        })
    -- the snapshot of the second reading runs
    applied :
        {latest : Snapshot env} {startup_chats : List Text} {w' w'' : World}
        → Changes old.snapshot w w'
        → Renews old.snapshot w' latest w''
        → env.schedule latest ≡ none
        → StartsNew old.snapshot latest startup_chats
        → Settled old last_error w (record {
          running = some (record { snapshot = latest; startup_chats = startup_chats });
          last_error = [];
          error = none;
          world = w'';
        })
    -- the context is done at the first reading
    interrupted_first :
        {e : E} {w' : World}
        → env.reload w ≡ (failed e, w')
        → env.cancelled w' ≡ true
        → Settled old last_error w (record {
          running = none;
          last_error = last_error;
          error = some context_done;
          world = w';
        })
    -- the context is done at the second reading
    interrupted_again :
        {e : E} {w' w'' : World}
        → Changes old.snapshot w w'
        → env.reload w' ≡ (failed e, w'')
        → env.cancelled w'' ≡ true
        → Settled old last_error w
            (record { running = none; last_error = []; error = some context_done; world = w'' })
    -- the old snapshot cannot be started again
    unrestored :
        {message : Text} {w' w'' : World} {e : E}
        → Changes old.snapshot w w'
        → GoesBack old.snapshot w' message w''
        → env.schedule old.snapshot ≡ some e
        → Settled old last_error w (record {
          running = none;
          last_error = message;
          error = some (start_failed e);
          world = w'';
        })
    -- the snapshot of the second reading cannot be started
    unapplied :
        {latest : Snapshot env} {w' w'' : World} {e : E}
        → Changes old.snapshot w w'
        → Renews old.snapshot w' latest w''
        → env.schedule latest ≡ some e
        → Settled old last_error w
            (record { running = none; last_error = []; error = some (start_failed e); world = w'' })

  same_reload_snapshot-AreSame :
      (left right : Snapshot env) (answer : Bool)
      → same_reload_snapshot env left right ≡ answer
      → AreSame answer left right
  unfolding same_reload_snapshot
  same_reload_snapshot-AreSame left right answer h = elim (Option-cases left.key) [
    | inr (key, has) ↦ inr (λ both. cc (has, both.0), rw has (rw has at h))
    | inl keyless ↦ elim (Option-cases right.key) [
      | inr (key, has) ↦ inr (λ both. cc (has, both.1), rw (keyless, has) (rw (keyless, has) at h))
      | inl neither ↦ inl ((keyless, neither), rw (keyless, neither) at h)
    ]
  ]

  module _ (old : Generation env) (last_error : Text) (w : World) where
    starts-new :
        (latest : Snapshot env)
        → StartsNew old.snapshot latest (new_recipient_startup_chats env old.snapshot latest)
    unfolding new_recipient_startup_chats contains any
    starts-new latest chat =
        ground (arith, contains-keep_others old.snapshot.chat_ids latest.chat_ids chat)

    restart-Settled :
        (message : Text) (w' w'' : World)
        → Changes old.snapshot w w'
        → GoesBack old.snapshot w' message w''
        → Settled old last_error w (start_service_generation env old.snapshot [] message w'')
    unfolding start_service_generation
    restart-Settled message w' w'' changed back = elim (Option-cases (env.schedule old.snapshot)) [
      | inl fine ↦ rw fine (restored changed back fine)
      | inr (e, bad) ↦ rw bad (unrestored changed back bad)
    ]

    apply_latest-Settled :
        (latest : Snapshot env) (w' between : World) (call : Attempt E (Unit {0}) × World)
        → Changes old.snapshot w w'
        → env.reload w' ≡ (done latest, between)
        → AreSame false old.snapshot latest
        → env.prepare latest between ≡ call
        → Settled old last_error w (apply_latest env old.snapshot latest call)
    unfolding apply_latest start_service_generation
    apply_latest-Settled latest w' between (failed e, w'') changed read differs called =
        restart-Settled (env.message e) w' w'' changed (preparing_failed read differs called)
    apply_latest-Settled latest w' between (done u, w'') changed read differs called =
        let renewed : Renews old.snapshot w' latest w'' = record {
          between = between;
          read = read;
          differs = differs;
          prepared = called;
        } in
        elim (Option-cases (env.schedule latest)) [
          | inl fine ↦ rw fine (applied changed renewed fine (starts-new latest))
          | inr (e, bad) ↦ rw bad (unapplied changed renewed bad)
        ]

    reload_latest-Settled :
        (w' : World) (call : Attempt E (Snapshot env) × World)
        → Changes old.snapshot w w'
        → env.reload w' ≡ call
        → Settled old last_error w (reload_latest env old.snapshot call)
    unfolding reload_latest
    reload_latest-Settled w' (failed e, w'') changed read = elim (Bool-cases (env.cancelled w'')) [
      | inl over ↦ rw over (interrupted_again changed read over)
      | inr live ↦
          rw live (restart-Settled (env.message e) w' w'' changed (reading_failed read live))
    ]
    reload_latest-Settled w' (done latest, w'') changed read =
        elim (Bool-cases (same_reload_snapshot env old.snapshot latest)) [
          | inl same ↦
              let same_again = same_reload_snapshot-AreSame old.snapshot latest true same in
              rw same (restart-Settled [] w' w'' changed (unchanged_again read same_again))
          | inr other ↦ rw other (
              apply_latest-Settled latest w' w'' (env.prepare latest w'') changed read
                (same_reload_snapshot-AreSame old.snapshot latest false other) refl)
        ]

    reload_candidate-Settled :
        (call : Attempt E (Snapshot env) × World)
        → env.reload w ≡ call
        → Settled old last_error w (reload_candidate env old last_error call)
    unfolding reload_candidate
    reload_candidate-Settled (failed e, w') read = elim (Bool-cases (env.cancelled w')) [
      | inl over ↦ rw over (interrupted_first read over)
      | inr live ↦ rw live (kept read live)
    ]
    reload_candidate-Settled (done candidate, w') read =
        elim (Bool-cases (same_reload_snapshot env old.snapshot candidate)) [
          | inl same ↦
              rw same
                (unchanged read (same_reload_snapshot-AreSame old.snapshot candidate true same))
          | inr other ↦
              let changed : Changes old.snapshot w w' = record {
                candidate = candidate;
                read = read;
                differs = same_reload_snapshot-AreSame old.snapshot candidate false other;
              } in
              rw other (reload_latest-Settled w' (env.reload w') changed refl)
        ]

  -- How a round of reloading ends, and when. If the first reading fails, or finds what runs, the
  -- generation runs on. If it finds another snapshot, the second reading decides: if it fails, finds
  -- what ran, or cannot be prepared, the old snapshot runs again, and no chat gets a digest at once;
  -- else the snapshot of the second reading runs, and only chats that are new get a digest at once.
  -- If the context is done when a reading fails, or a schedule is bad, the round ends with an error
  -- and nothing runs.
  pub reload_generation-Settled :
      (old : Generation env) (last_error : Text) (w : World)
      → Settled old last_error w (reload_generation env old last_error w)
  unfolding reload_generation
  reload_generation-Settled old last_error w =
      reload_candidate-Settled old last_error w (env.reload w) refl
