-- ===== src/Config/StateFiles/Apart.antt =====
-- internal/config/config.go: what a chat is mapped to, and when two chats are apart.
use alib_fetcher.Base.{
  ◌≡◌, ◌≢◌, refl, sym, ap, subst, ◌∙◌, List, [], ◌∷◌, ◌++◌, Text, text, map, Option, none, some,
  false, not, text_eq_iff, any, contains, All, Outcome, done, refused, >>=-eq-done, done-injective,
  require-eq-done, arith,
}
use alib_fetcher.Config.ChatId.{normalize_chat_id}
use alib_fetcher.Config.Paths.{join_path, value_or}
use alib_fetcher.Config.StateFiles.{
  FileInfo, System, ChatProblem, RawChat, Mapping, Seen, same_file, collides, inspect,
  validate_state_file, validate_state_alias, colliding_state_file,
}

abbrev pub info_in : Outcome ChatProblem (Option FileInfo) → Option FileInfo
info_in (done info) = info
info_in (refused problem) = none

abbrev pub chat_id_in : Mapping → Text
chat_id_in m = m.chat_id

module _ (system : System) where
  -- What is remembered of a chat.
  abbrev pub entry_of : Mapping → Seen
  entry_of m = record {
    key = system.nfc m.state_path;
    info = info_in (inspect system m.state_path);
  }

  -- The chat that the raw one stands for, in its file below the state directory.
  pub record Maps (state_dir : Text) (raw : RawChat) (m : Mapping) : Type 0 where
    pub normal : normalize_chat_id system.lower raw.chat_id ≡ some m.chat_id
    pub named : m.state_file ≡ value_or raw.state_file (m.chat_id ++ text ".db")
    pub safe : validate_state_file m.state_file ≡ done tt
    pub placed : m.state_path ≡ join_path state_dir m.state_file
    pub inspected : (info : Option FileInfo) × (inspect system m.state_path ≡ done info)

  -- Two chats with different names whose files differ, however the file system compares them.
  pub record AreApart (later earlier : Mapping) : Type 0 where
    pub ids : later.chat_id ≢ earlier.chat_id
    pub keys :
        system.equal_fold (system.nfc later.state_path) (system.nfc earlier.state_path) ≡ false
    pub files : same_file (entry_of later).info (entry_of earlier).info ≡ false

  abbrev pub EachMaps : Text → List RawChat → List Mapping → Type 0
  EachMaps state_dir [] [] = Unit
  EachMaps state_dir [] (m ∷ ms) = ⊥
  EachMaps state_dir (raw ∷ raws) [] = ⊥
  EachMaps state_dir (raw ∷ raws) (m ∷ ms) = Maps state_dir raw m × EachMaps state_dir raws ms

  -- Every chat is apart from those before it.
  abbrev pub AllApart : List Mapping → List Mapping → Type 0
  AllApart earlier [] = Unit
  AllApart earlier (m ∷ ms) = All (AreApart m) earlier × AllApart (m ∷ earlier) ms

  pub map_chat-apart :
      (m : Mapping) (earlier : List Mapping)
      → (contains (map chat_id_in earlier) m.chat_id ≡ false)
      → (any (collides system (entry_of m)) (map entry_of earlier) ≡ false)
      → All (AreApart m) earlier
  unfolding contains any collides
  map_chat-apart m [] ids files = tt
  map_chat-apart m (e ∷ es) ids files = (
    record {
      ids = λ same. ground (arith, ids, text_eq_iff m.chat_id e.chat_id, same);
      keys = ground (arith, files);
      files = ground (arith, files);
    },
    map_chat-apart m es (ground (arith, ids)) (ground (arith, files)),
  )

  pub validate_state_alias-entry :
      (path : Text) (seen : List Seen) (entry : Seen)
      → validate_state_alias system path seen ≡ done entry
      → (info : Option FileInfo) × (inspect system path ≡ done info)
        × (entry ≡ record { key = system.nfc path; info = info_in (inspect system path) })
        × (any (collides system entry) seen ≡ false)
  unfolding validate_state_alias
  validate_state_alias-entry path seen entry h =
      let (info, found, h1) = >>=-eq-done (inspect system path) _ h in
      let fresh : Seen = record { key = system.nfc path; info = info } in
      let (free, h2) =
        require-eq-done (not (any (collides system fresh) seen)) colliding_state_file _ h1 in
      let same : record { key = system.nfc path; info = info } ≡ entry = done-injective h2 in
      (
        info,
        found,
        sym same ∙ rw found refl,
        subst (λ e. any (collides system e) seen ≡ false) same (ground (arith, free)),
      )

  pub apart-ids :
      (m : Mapping) (earlier : List Mapping)
      → All (AreApart m) earlier
      → contains (map chat_id_in earlier) m.chat_id ≡ false
  unfolding contains any
  apart-ids m [] apart = refl
  apart-ids m (e ∷ es) apart =
      ground (arith, apart.0.ids, text_eq_iff m.chat_id e.chat_id, apart-ids m es apart.1)

  apart-files :
      (m : Mapping) (earlier : List Mapping)
      → All (AreApart m) earlier
      → any (collides system (entry_of m)) (map entry_of earlier) ≡ false
  unfolding collides any
  apart-files m [] apart = refl
  apart-files m (e ∷ es) apart =
      ground (arith, apart.0.keys, apart.0.files, apart-files m es apart.1)

  alias-entry :
      (path : Text) (seen : List Seen) (info : Option FileInfo)
      → inspect system path ≡ done info
      → any (collides system (record { key = system.nfc path; info = info })) seen ≡ false
      → validate_state_alias system path seen ≡ done (record { key = system.nfc path; info = info })
  unfolding validate_state_alias
  alias-entry path seen info found free = rw (found, free) refl

  pub apart-alias :
      (m : Mapping) (earlier : List Mapping) (info : Option FileInfo)
      → inspect system m.state_path ≡ done info
      → All (AreApart m) earlier
      → validate_state_alias system m.state_path (map entry_of earlier) ≡ done (entry_of m)
  apart-alias m earlier info found apart =
      let known : info_in (inspect system m.state_path) ≡ info = ap info_in found in
      let at : Option FileInfo → Seen = λ i. record { key = system.nfc m.state_path; info = i } in
      alias-entry m.state_path (map entry_of earlier) (info_in (inspect system m.state_path))
        (found ∙ ap done (sym known)) (apart-files m earlier apart)
