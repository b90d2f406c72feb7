-- ===== src/Config/Settings/Maintenance.antt =====
-- internal/config/config.go: `LoadForMaintenance` finds the state file that the service uses.
use alib_fetcher.Base.{
  ◌≡◌, ◌≢◌, ◌↔◌, ◌⊎◌, inl, inr, refl, sym, ap, subst, ◌∙◌, Text, text_eq, text_eq_iff, map, some,
  done, refused, done-injective, All, Bool-cases, List, [], ◌∷◌,
}
use alib_fetcher.Config.ChatId.{normalize_chat_id}
use alib_fetcher.Config.Paths.{resolve_state_dir}
use alib_fetcher.Config.StateFiles.{RawChat, Mapping, validate_state_mappings}
use alib_fetcher.Config.StateFiles.Apart.{AreApart, AllApart}
use alib_fetcher.Config.StateFiles.Mapped.{validate_state_mappings_iff}
use alib_fetcher.Config.Settings.{
  Libraries, unknown_chat, RawConfig, Settings, Chat, state_path_of, validate, load_for_maintenance,
}
use alib_fetcher.Config.Settings.Valid.{mapping_in, AreChats, validate-AreValid}

-- A member of a row.
abbrev pub Among : Chat → List Chat → Type 0
Among chat [] = ⊥
Among chat (first ∷ chats) = (chat ≡ first) ⊎ Among chat chats

module _ (libraries : Libraries) where
  AreChats-mappings :
      (state_dir : Text) (raws : List RawChat) (chats : List Chat)
      → AreChats libraries state_dir raws chats
      → validate_state_mappings libraries.system raws state_dir ≡ done (map mapping_in chats)
  AreChats-mappings state_dir raws chats v =
      (validate_state_mappings_iff libraries.system raws state_dir (map mapping_in chats)).1
        (v.some_chat, v.mapped, v.apart)

  load-found :
      (raw : RawConfig) (config_path chat_id id state_dir : Text) (ms : List Mapping)
      → resolve_state_dir libraries.cwd raw.state_path config_path ≡ some state_dir
      → validate_state_mappings libraries.system raw.chats state_dir ≡ done ms
      → normalize_chat_id libraries.system.lower chat_id ≡ some id
      → load_for_maintenance libraries raw config_path chat_id ≡ state_path_of id ms
  unfolding load_for_maintenance
  load-found raw config_path chat_id id state_dir ms resolved mapped normal =
      rw (resolved, mapped, normal) refl

  -- The state file is that of a recipient with this name.
  pub record IsStateOf (id path : Text) (chats : List Chat) : Type 0 where
    pub chat : Chat
    pub running : Among chat chats
    pub named : chat.chat_id ≡ id
    pub placed : chat.state_path ≡ path

  found-IsStateOf :
      (id path : Text) (chats : List Chat)
      → state_path_of id (map mapping_in chats) ≡ done path
      → IsStateOf id path chats
  unfolding state_path_of
  found-IsStateOf id path [] h = cc h
  found-IsStateOf id path (chat ∷ chats) h = elim (Bool-cases (text_eq chat.chat_id id)) [
    | inl same ↦ record {
      chat = chat;
      running = inl refl;
      named = (text_eq_iff chat.chat_id id).0 same;
      placed = done-injective (rw same at h);
    }
    | inr other ↦
        let later = found-IsStateOf id path chats (rw other at h) in
        record {
          chat = later.chat;
          running = inr later.running;
          named = later.named;
          placed = later.placed;
        }
  ]

  -- A recipient is apart from those before it.
  Among-AreApart :
      (earlier : List Mapping) (chat : Chat) (chats : List Chat)
      → AllApart libraries.system earlier (map mapping_in chats)
      → Among chat chats
      → All (AreApart libraries.system (mapping_in chat)) earlier
  Among-AreApart earlier chat [] apart is = absurd is
  Among-AreApart earlier chat (first ∷ chats) apart (inl same) =
      subst (λ c. All (AreApart libraries.system (mapping_in c)) earlier) (sym same) apart.0
  Among-AreApart earlier chat (first ∷ chats) apart (inr later) =
      (Among-AreApart (mapping_in first ∷ earlier) chat chats apart.1 later).1

  Among-found :
      (earlier : List Mapping) (chat : Chat) (chats : List Chat)
      → AllApart libraries.system earlier (map mapping_in chats)
      → Among chat chats
      → state_path_of chat.chat_id (map mapping_in chats) ≡ done chat.state_path
  unfolding state_path_of
  Among-found earlier chat [] apart is = absurd is
  Among-found earlier chat (first ∷ chats) apart (inl same) =
      subst (λ c. state_path_of c.chat_id (map mapping_in (first ∷ chats)) ≡ done c.state_path)
        (sym same) (rw ((text_eq_iff first.chat_id first.chat_id).1 refl) refl)
  Among-found earlier chat (first ∷ chats) apart (inr later) =
      elim (Bool-cases (text_eq first.chat_id chat.chat_id)) [
        | inl same ↦ absurd (
            (Among-AreApart (mapping_in first ∷ earlier) chat chats apart.1 later).0.ids
              (sym ((text_eq_iff first.chat_id chat.chat_id).0 same)))
        | inr other ↦ rw other (Among-found (mapping_in first ∷ earlier) chat chats apart.1 later)
      ]

  missing-unknown :
      (id : Text) (chats : List Chat)
      → All (λ chat. chat.chat_id ≢ id) chats
      → state_path_of id (map mapping_in chats) ≡ refused (unknown_chat id)
  unfolding state_path_of
  missing-unknown id [] none_named = refl
  missing-unknown id (chat ∷ chats) none_named = elim (Bool-cases (text_eq chat.chat_id id)) [
    | inl same ↦ absurd (none_named.0 ((text_eq_iff chat.chat_id id).0 same))
    | inr other ↦ rw other (missing-unknown id chats none_named.1)
  ]

  -- Where the service accepts a configuration, the maintenance command reaches a state file exactly
  -- if it is that of a recipient which the service runs under the canonical name of the chat; if
  -- there is no such recipient it says so.
  pub load_for_maintenance-agrees :
      (raw : RawConfig) (config_path chat_id id : Text) (s : Settings)
      → validate libraries raw config_path ≡ done s
      → normalize_chat_id libraries.system.lower chat_id ≡ some id
      → ((path : Text)
          → (load_for_maintenance libraries raw config_path chat_id ≡ done path)
            ↔ IsStateOf id path s.chats)
        × (All (λ chat. chat.chat_id ≢ id) s.chats
            → load_for_maintenance libraries raw config_path chat_id ≡ refused (unknown_chat id))
  load_for_maintenance-agrees raw config_path chat_id id s valid normal =
      let v = validate-AreValid libraries raw config_path s valid in
      let found : load_for_maintenance libraries raw config_path chat_id
          ≡ state_path_of id (map mapping_in s.chats) =
        load-found raw config_path chat_id id s.state_path (map mapping_in s.chats) v.directory
          (AreChats-mappings s.state_path raw.chats s.chats v.recipients) normal in
      (
        λ path. (
          λ h. found-IsStateOf id path s.chats (sym found ∙ h),
          λ is.
              found
              ∙ ap (λ name. state_path_of name (map mapping_in s.chats)) (sym is.named)
              ∙ Among-found [] is.chat s.chats v.recipients.apart is.running
              ∙ ap done is.placed,
        ),
        λ none_named. found ∙ missing-unknown id s.chats none_named,
      )
