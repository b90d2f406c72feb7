-- ===== src/Config/StateFiles.antt =====
-- internal/config/config.go: which chat keeps its state in which file, `validateStateMappings`. The
-- file system, the normal form NFC of golang.org/x/text and the folding of cases are parameters.
pub mod Apart
pub mod Mapped
pub mod Below
use alib_fetcher.Base.{
  ℕ, suc, List, [], ◌∷◌, ◌++◌, Text, text, Option, none, some, Bool, true, false, not, ◌&&◌, ◌||◌,
  ◌==◌, if◌then◌else◌, text_eq, is_empty, any, contains, Outcome, done, refused, require, ◌>>=◌,
  ◌>>◌,
}
use alib_fetcher.Config.ChatId.{normalize_chat_id}
use alib_fetcher.Config.Paths.{is_abs, join_path, value_or}

-- `os.FileInfo`, as far as it is read: `file` stands for what `os.SameFile` compares.
pub record FileInfo : Type 0 where
  pub is_symlink : Bool
  pub file : ℕ

-- What a look at a path finds.
pub data Found : Type 0 where
  absent unreadable : Found
  present : FileInfo → Found

pub record System : Type 0 where
  pub lower : ℕ → ℕ
  pub nfc : Text → Text
  pub equal_fold : Text → Text → Bool
  pub lstat : Text → Found
  pub stat : Text → Found

pub data ChatProblem : Type 0 where
  bad_chat_id duplicate_chat_id unsafe_state_file uninspected_state_file unresolved_symlink :
      ChatProblem
  colliding_state_file : ChatProblem

-- The error at `chats[index]`, or that there are none.
pub data MappingProblem : Type 0 where
  no_recipient : MappingProblem
  at_chat : ℕ → ChatProblem → MappingProblem

-- `rawChat`
pub record RawChat : Type 0 where
  pub chat_id : Text
  pub telegram_token : Text
  pub state_file : Option Text
  pub categories : List Text
  pub filters : List (Text × List Text)
  pub queries : List (List (Text × Text))

-- The fields of `Chat` that are known here.
pub record Mapping : Type 0 where
  pub chat_id : Text
  pub state_file : Text
  pub state_path : Text

-- A key of `seenFiles` with its value. No key comes twice: a text is equal to itself under case
-- folding, so a path that is there already collides.
pub record Seen : Type 0 where
  pub key : Text
  pub info : Option FileInfo

-- The zero character, a slash or a backslash.
abbrev pub is_unsafe : ℕ → Bool
is_unsafe c = c == 0 || c == 47 || c == 92

unfoldable pub validate_state_file : Text → Outcome ChatProblem (Unit {0})
validate_state_file value =
    require
      (not (
        is_empty value
        || text_eq value (text ".")
        || text_eq value (text "..")
        || any is_unsafe value
        || is_abs value))
      unsafe_state_file

-- `os.SameFile`, where both are there.
abbrev pub same_file : Option FileInfo → Option FileInfo → Bool
same_file (some a) (some b) = a.file == b.file
same_file a b = false

abbrev pub resolved : Found → Outcome ChatProblem (Option FileInfo)
resolved absent = refused unresolved_symlink
resolved unreadable = refused unresolved_symlink
resolved (present info) = done (some info)

abbrev pub chat_id_of : Option Text → Outcome ChatProblem Text
chat_id_of none = refused bad_chat_id
chat_id_of (some chat_id) = done chat_id

abbrev pub with_index : {A : Type 0} → ℕ → Outcome ChatProblem A → Outcome MappingProblem A
with_index index (done a) = done a
with_index index (refused problem) = refused (at_chat index problem)

module _ (system : System) where
  abbrev pub inspected : Text → Found → Outcome ChatProblem (Option FileInfo)
  inspected path absent = done none
  inspected path unreadable = refused uninspected_state_file
  inspected path (present info) =
      if info.is_symlink then resolved (system.stat path) else done (some info)

  -- The file that a path leads to, if there is one.
  unfoldable pub inspect : Text → Outcome ChatProblem (Option FileInfo)
  inspect path = inspected path (system.lstat path)

  unfoldable pub collides : Seen → Seen → Bool
  collides new old = system.equal_fold new.key old.key || same_file new.info old.info

  -- The new entry of `seen`.
  unfoldable pub validate_state_alias : Text → List Seen → Outcome ChatProblem Seen
  validate_state_alias path seen = do
    info ← inspect path
    let entry : Seen = record { key = system.nfc path; info = info }
    require (not (any (collides entry) seen)) colliding_state_file
    done entry

  -- One pass through the loop, with what it has seen.
  unfoldable pub map_chat :
      Text → List Text → List Seen → RawChat → Outcome ChatProblem (Mapping × Seen)
  map_chat state_dir seen_ids seen_files raw = do
    chat_id ← chat_id_of (normalize_chat_id system.lower raw.chat_id)
    require (not (contains seen_ids chat_id)) duplicate_chat_id
    let state_file = value_or raw.state_file (chat_id ++ text ".db")
    validate_state_file state_file
    let state_path = join_path state_dir state_file
    entry ← validate_state_alias state_path seen_files
    done (record { chat_id = chat_id; state_file = state_file; state_path = state_path }, entry)

  unfoldable pub map_chats :
      Text → ℕ → List Text → List Seen → List RawChat → Outcome MappingProblem (List Mapping)
  map_chats state_dir index seen_ids seen_files [] = done []
  map_chats state_dir index seen_ids seen_files (raw ∷ raws) = do
    (mapping, entry) ← with_index index (map_chat state_dir seen_ids seen_files raw)
    rest ← map_chats state_dir (suc index) (mapping.chat_id ∷ seen_ids) (entry ∷ seen_files) raws
    done (mapping ∷ rest)

  unfoldable pub validate_state_mappings :
      List RawChat → Text → Outcome MappingProblem (List Mapping)
  validate_state_mappings [] state_dir = refused no_recipient
  validate_state_mappings (raw ∷ raws) state_dir = map_chats state_dir 0 [] [] (raw ∷ raws)
