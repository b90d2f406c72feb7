-- ===== src/Config/StateFiles/Mapped.antt =====
-- internal/config/config.go: when `validateStateMappings` succeeds.
use alib_fetcher.Base.{
  ℕ, suc, ◌≡◌, ◌≢◌, refl, sym, ap, subst, ◌↔◌, List, [], ◌∷◌, ◌++◌, Text, text, map, Option, none,
  some, false, not, any, contains, All, Outcome, done, refused, >>=-eq-done, done-injective,
  require-eq-done, arith,
}
use alib_fetcher.Config.ChatId.{normalize_chat_id}
use alib_fetcher.Config.Paths.{join_path, value_or}
use alib_fetcher.Config.StateFiles.{
  System, ChatProblem, MappingProblem, RawChat, Mapping, Seen, collides, validate_state_file,
  validate_state_alias, chat_id_of, map_chat, map_chats, with_index, validate_state_mappings,
  duplicate_chat_id,
}
use alib_fetcher.Config.StateFiles.Apart.{
  entry_of, Maps, AreApart, EachMaps, AllApart, chat_id_in, map_chat-apart,
  validate_state_alias-entry, apart-ids, apart-alias,
}

normal-chat_id_of : (o : Option Text) (id : Text) → chat_id_of o ≡ done id → o ≡ some id
normal-chat_id_of none id h = cc h
normal-chat_id_of (some a) id h = ap some (done-injective h)

with_index-done :
    {A : Type 0} (index : ℕ) (o : Outcome ChatProblem A) (a : A)
    → with_index index o ≡ done a
    → o ≡ done a
with_index-done index (done b) a h = ap done (done-injective h)
with_index-done index (refused problem) a h = cc h

module _ (system : System) where
  abbrev mapping_of : Text → RawChat → Text → Mapping
  mapping_of state_dir raw chat_id =
      let state_file = value_or raw.state_file (chat_id ++ text ".db") in
      record {
        chat_id = chat_id;
        state_file = state_file;
        state_path = join_path state_dir state_file;
      }

  module _ (state_dir : Text) (earlier : List Mapping) (raw : RawChat) where
    abbrev Mapped : Mapping × Seen → Type 0
    Mapped (m, entry) =
        Maps system state_dir raw m × (entry ≡ entry_of system m) × All (AreApart system m) earlier

    map_chat-Mapped :
        (result : Mapping × Seen)
        → map_chat system state_dir (map chat_id_in earlier) (map (entry_of system) earlier) raw
          ≡ done result
        → Mapped result
    unfolding map_chat
    map_chat-Mapped result h =
        let (id, normal, h1) =
          >>=-eq-done (chat_id_of (normalize_chat_id system.lower raw.chat_id)) _ h in
        let (fresh, h2) =
          require-eq-done (not (contains (map chat_id_in earlier) id)) duplicate_chat_id _ h1 in
        let m : Mapping = mapping_of state_dir raw id in
        let (valid, safe, h3) = >>=-eq-done (validate_state_file m.state_file) _ h2 in
        let (entry, alias, h4) =
          >>=-eq-done (validate_state_alias system m.state_path (map (entry_of system) earlier)) _
            h3 in
        let (info, found, kept, free) =
          validate_state_alias-entry system m.state_path (map (entry_of system) earlier) entry
            alias in
        subst Mapped (done-injective h4) (
          record {
            normal = normal-chat_id_of (normalize_chat_id system.lower raw.chat_id) id normal;
            named = refl;
            safe = safe;
            placed = refl;
            inspected = (info, found);
          },
          kept,
          map_chat-apart system m earlier (ground (arith, fresh)) (
              subst (λ e. any (collides system e) (map (entry_of system) earlier) ≡ false) kept
                free),
        )

    map_chat-at :
        (id file path : Text) (entry : Seen)
        → normalize_chat_id system.lower raw.chat_id ≡ some id
        → contains (map chat_id_in earlier) id ≡ false
        → file ≡ value_or raw.state_file (id ++ text ".db")
        → validate_state_file file ≡ done tt
        → path ≡ join_path state_dir file
        → validate_state_alias system path (map (entry_of system) earlier) ≡ done entry
        → map_chat system state_dir (map chat_id_in earlier) (map (entry_of system) earlier) raw
          ≡ done (record { chat_id = id; state_file = file; state_path = path }, entry)
    unfolding map_chat
    map_chat-at id file path entry normal fresh named safe placed alias =
        rw (normal, fresh, sym named, safe, sym placed, alias) refl

    Mapped-map_chat :
        (m : Mapping)
        → Maps system state_dir raw m
        → All (AreApart system m) earlier
        → map_chat system state_dir (map chat_id_in earlier) (map (entry_of system) earlier) raw
          ≡ done (m, entry_of system m)
    Mapped-map_chat m maps apart =
        map_chat-at m.chat_id m.state_file m.state_path (entry_of system m) maps.normal
          (apart-ids system m earlier apart) maps.named maps.safe maps.placed
          (apart-alias system m earlier maps.inspected.0 maps.inspected.1 apart)

  abbrev maps_from : Text → ℕ → List Mapping → List RawChat → Outcome MappingProblem (List Mapping)
  maps_from state_dir index earlier raws =
      map_chats system state_dir index (map chat_id_in earlier) (map (entry_of system) earlier) raws

  map_chats-mapped :
      (state_dir : Text) (index : ℕ) (earlier : List Mapping) (raws : List RawChat)
      (ms : List Mapping)
      → maps_from state_dir index earlier raws ≡ done ms
      → EachMaps system state_dir raws ms × AllApart system earlier ms
  unfolding map_chats
  map_chats-mapped state_dir index earlier [] ms h =
      subst (λ r. EachMaps system state_dir [] r × AllApart system earlier r) (done-injective h)
        (tt, tt)
  map_chats-mapped state_dir index earlier (raw ∷ raws) ms h =
      let (result, e1, h1) =
        >>=-eq-done
          (with_index index (
            map_chat system state_dir (map chat_id_in earlier) (map (entry_of system) earlier) raw))
          _ h in
      let (maps, kept, apart) =
        map_chat-Mapped state_dir earlier raw result (with_index-done index _ result e1) in
      let (rest, e2, h2) =
        >>=-eq-done
          (map_chats system state_dir (suc index) (result.0.chat_id ∷ map chat_id_in earlier)
            (result.1 ∷ map (entry_of system) earlier) raws)
          _ h1 in
      let more = map_chats-mapped state_dir (suc index) (result.0 ∷ earlier) raws rest (
        subst
          (λ entry.
            map_chats system state_dir (suc index) (result.0.chat_id ∷ map chat_id_in earlier)
              (entry ∷ map (entry_of system) earlier) raws
            ≡ done rest)
          kept e2) in
      subst (λ r. EachMaps system state_dir (raw ∷ raws) r × AllApart system earlier r)
        (done-injective h2) ((maps, more.0), (apart, more.1))

  mapped-map_chats :
      (state_dir : Text) (index : ℕ) (earlier : List Mapping) (raws : List RawChat)
      (ms : List Mapping)
      → EachMaps system state_dir raws ms
      → AllApart system earlier ms
      → maps_from state_dir index earlier raws ≡ done ms
  unfolding map_chats
  mapped-map_chats state_dir index earlier [] [] each apart = refl
  mapped-map_chats state_dir index earlier [] (m ∷ ms) each apart = absurd each
  mapped-map_chats state_dir index earlier (raw ∷ raws) [] each apart = absurd each
  mapped-map_chats state_dir index earlier (raw ∷ raws) (m ∷ ms) each apart =
      rw
        (
          Mapped-map_chat state_dir earlier raw m each.0 apart.0,
          mapped-map_chats state_dir (suc index) (m ∷ earlier) raws ms each.1 apart.1,
        )
        refl

  -- The recipients are accepted exactly if there is one, every chat and state file is fit, and
  -- every chat is apart from those before it in its canonical name and in its file, by name and by
  -- what the file system compares. The result names the chats in order.
  pub validate_state_mappings_iff :
      (raws : List RawChat) (state_dir : Text) (ms : List Mapping)
      → (validate_state_mappings system raws state_dir ≡ done ms)
        ↔ ((raws ≢ []) × EachMaps system state_dir raws ms × AllApart system [] ms)
  unfolding validate_state_mappings
  validate_state_mappings_iff [] state_dir ms = (λ h. cc h, λ h. absurd (h.0 refl))
  validate_state_mappings_iff (raw ∷ raws) state_dir ms = (
    λ h.
        let mapped = map_chats-mapped state_dir 0 [] (raw ∷ raws) ms h in
        (λ e. cc e, mapped.0, mapped.1),
    λ h. mapped-map_chats state_dir 0 [] (raw ∷ raws) ms h.1 h.2,
  )
