-- ===== src/Config/Settings/Valid.antt =====
-- internal/config/config.go: what `validate` guarantees of the settings that it returns.
use alib_fetcher.Base.{
  ℕ, suc, ℤ, pos, ◌≤ℤ◌, ◌<ℤ◌, ◌≡◌, ◌≢◌, refl, sym, ap, subst, List, [], ◌∷◌, Text, map, Option,
  none, some, true, false, not, is_empty, Outcome, done, refused, >>=-eq-done, done-injective,
  require-eq-done, arith, Bool-cases, inl, inr,
}
use alib_fetcher.Config.FreshBooks.{FreshBooksPolicy, parse_fresh_books}
use alib_fetcher.Config.FreshBooks.RoundTrip.{IsPolicy, parse_fresh_books-IsPolicy}
use alib_fetcher.Config.Paths.{resolve_state_dir, value_or}
use alib_fetcher.Config.StateFiles.{RawChat, Mapping, validate_state_mappings}
use alib_fetcher.Config.StateFiles.Apart.{EachMaps, AllApart}
use alib_fetcher.Config.StateFiles.Mapped.{validate_state_mappings_iff}
use alib_fetcher.Config.Search.Urls.{build_search_urls}
use alib_fetcher.Config.Settings.{
  Libraries, Problem, RawConfig, Chat, Settings, bad_max_retries, bad_message_limit,
  bad_cron_schedule, bad_http_timeout, bad_download_delay, bad_mapping, bad_search, missing_token,
  bad_timezone, bad_state_path, or_refuse, wrapped, checked_duration, is_positive, is_negative,
  parse_duration, parse_non_negative_duration, some_policy, fresh_books_policy, search_of,
  limit_in_range, complete_chat, complete_chats, validate_chats, validate,
  telegram_hard_message_limit, default_cron_schedule, default_alib_max_retries,
  default_message_limit, default_timezone,
}

abbrev pub mapping_in : Chat → Mapping
mapping_in chat = record {
  chat_id = chat.chat_id;
  state_file = chat.state_file;
  state_path = chat.state_path;
}

wrapped-done :
    {E F A : Type 0} (wrap : E → F) (o : Outcome E A) (a : A) → wrapped wrap o ≡ done a → o ≡ done a
wrapped-done wrap (done b) a h = ap done (done-injective h)
wrapped-done wrap (refused e) a h = cc h

parse_duration-positive :
    (duration : Text → Option ℤ) (value : Option Text) (n : ℤ)
    → parse_duration duration value ≡ done n
    → pos 0 <ℤ n
unfolding parse_duration
parse_duration-positive duration none n h = subst (λ m. pos 0 <ℤ m) (done-injective h) (omega arith)
parse_duration-positive duration (some value) n h = checked (duration value) h
  where
    checked : (o : Option ℤ) → checked_duration bad_http_timeout is_positive o ≡ done n → pos 0 <ℤ n
    checked none h = cc h
    checked (some m) h =
        let (test, e) = require-eq-done (is_positive m) bad_http_timeout _ h in
        subst (λ m. pos 0 <ℤ m) (done-injective e) (ground (arith, test))

parse_delay-natural :
    (duration : Text → Option ℤ) (value : Option Text) (n : ℤ)
    → parse_non_negative_duration duration value ≡ done n
    → pos 0 ≤ℤ n
unfolding parse_non_negative_duration
parse_delay-natural duration none n h = subst (λ m. pos 0 ≤ℤ m) (done-injective h) (omega arith)
parse_delay-natural duration (some value) n h = checked (duration value) h
  where
    checked :
        (o : Option ℤ)
        → checked_duration bad_download_delay (λ m. not (is_negative m)) o ≡ done n
        → pos 0 ≤ℤ n
    checked none h = cc h
    checked (some m) h =
        let (test, e) = require-eq-done (not (is_negative m)) bad_download_delay _ h in
        subst (λ m. pos 0 ≤ℤ m) (done-injective e) (ground (arith, test))

abbrev IsOptionalPolicy : Option FreshBooksPolicy → Type 0
IsOptionalPolicy none = Unit
IsOptionalPolicy (some policy) = IsPolicy policy

fresh_books_policy-IsPolicy :
    (value : Option Text) (policy : Option FreshBooksPolicy)
    → fresh_books_policy value ≡ done policy
    → IsOptionalPolicy policy
unfolding fresh_books_policy
fresh_books_policy-IsPolicy none policy h = subst IsOptionalPolicy (done-injective h) tt
fresh_books_policy-IsPolicy (some value) policy h = elim (Bool-cases (is_empty value)) [
  | inl blank ↦ subst IsOptionalPolicy (done-injective (rw blank at h)) tt
  | inr given ↦
      read (parse_fresh_books value) (λ p. parse_fresh_books-IsPolicy value p) (rw given at h)
]
  where
    read :
        (o : Option FreshBooksPolicy)
        → ((p : FreshBooksPolicy) → o ≡ some p → IsPolicy p)
        → some_policy o ≡ done policy
        → IsOptionalPolicy policy
    read none parsed h = cc h
    read (some p) parsed h = subst IsOptionalPolicy (done-injective h) (parsed p refl)

module _ (libraries : Libraries) where
  -- A recipient: its token, and the URLs of its sources.
  pub record IsChat (raw : RawChat) (chat : Chat) : Type 0 where
    pub token : (chat.telegram_token ≡ raw.telegram_token) × (is_empty chat.telegram_token ≡ false)
    pub urls : build_search_urls libraries.windows_1251 (search_of raw) ≡ done chat.alib_urls

  abbrev pub EachIsChat : List RawChat → List Chat → Type 0
  EachIsChat [] [] = Unit
  EachIsChat [] (chat ∷ chats) = ⊥
  EachIsChat (raw ∷ raws) [] = ⊥
  EachIsChat (raw ∷ raws) (chat ∷ chats) = IsChat raw chat × EachIsChat raws chats

  complete_chat-IsChat :
      (index : ℕ) (raw : RawChat) (mapping : Mapping) (chat : Chat)
      → complete_chat libraries index raw mapping ≡ done chat
      → IsChat raw chat × (mapping_in chat ≡ mapping)
  unfolding complete_chat
  complete_chat-IsChat index raw mapping chat h =
      let (token, h1) =
        require-eq-done (not (is_empty raw.telegram_token)) (missing_token index) _ h in
      let (urls, built, h2) =
        >>=-eq-done
          (wrapped (bad_search index) (build_search_urls libraries.windows_1251 (search_of raw))) _
          h1 in
      subst (λ c. IsChat raw c × (mapping_in c ≡ mapping)) (done-injective h2)
        (
          record {
            token = (refl, ground (arith, token));
            urls = wrapped-done (bad_search index) _ urls built;
          },
          refl,
        )

  abbrev SameLength : List RawChat → List Mapping → Type 0
  SameLength [] [] = Unit
  SameLength [] (m ∷ ms) = ⊥
  SameLength (raw ∷ raws) [] = ⊥
  SameLength (raw ∷ raws) (m ∷ ms) = SameLength raws ms

  EachMaps-SameLength :
      (state_dir : Text) (raws : List RawChat) (ms : List Mapping)
      → EachMaps libraries.system state_dir raws ms
      → SameLength raws ms
  EachMaps-SameLength state_dir [] [] each = tt
  EachMaps-SameLength state_dir [] (m ∷ ms) each = each
  EachMaps-SameLength state_dir (raw ∷ raws) [] each = each
  EachMaps-SameLength state_dir (raw ∷ raws) (m ∷ ms) each =
      EachMaps-SameLength state_dir raws ms each.1

  complete_chats-EachIsChat :
      (index : ℕ) (raws : List RawChat) (ms : List Mapping) (chats : List Chat)
      → SameLength raws ms
      → complete_chats libraries index raws ms ≡ done chats
      → EachIsChat raws chats × (map mapping_in chats ≡ ms)
  unfolding complete_chats
  complete_chats-EachIsChat index [] [] chats same h =
      subst (λ cs. EachIsChat [] cs × (map mapping_in cs ≡ [])) (done-injective h) (tt, refl)
  complete_chats-EachIsChat index [] (m ∷ ms) chats same h = absurd same
  complete_chats-EachIsChat index (raw ∷ raws) [] chats same h = absurd same
  complete_chats-EachIsChat index (raw ∷ raws) (m ∷ ms) chats same h =
      let (chat, e1, h1) = >>=-eq-done (complete_chat libraries index raw m) _ h in
      let (rest, e2, h2) = >>=-eq-done (complete_chats libraries (suc index) raws ms) _ h1 in
      let (first, mapped) = complete_chat-IsChat index raw m chat e1 in
      let (later, all_mapped) = complete_chats-EachIsChat (suc index) raws ms rest same e2 in
      subst (λ cs. EachIsChat (raw ∷ raws) cs × (map mapping_in cs ≡ m ∷ ms)) (done-injective h2)
        ((first, later), cc (mapped, all_mapped))

  -- What is kept of the chats, for a state directory.
  pub record AreChats (state_dir : Text) (raws : List RawChat) (chats : List Chat) : Type 0 where
    pub some_chat : raws ≢ []
    pub each : EachIsChat raws chats
    pub mapped : EachMaps libraries.system state_dir raws (map mapping_in chats)
    pub apart : AllApart libraries.system [] (map mapping_in chats)

  validate_chats-AreChats :
      (raws : List RawChat) (state_dir : Text) (chats : List Chat)
      → validate_chats libraries raws state_dir ≡ done chats
      → AreChats state_dir raws chats
  unfolding validate_chats
  validate_chats-AreChats raws state_dir chats h =
      let (ms, e1, h1) =
        >>=-eq-done (wrapped bad_mapping (validate_state_mappings libraries.system raws state_dir))
          _ h in
      let (given, mapped, apart) =
        (validate_state_mappings_iff libraries.system raws state_dir ms).0
          (wrapped-done bad_mapping _ ms e1) in
      let (each, same) =
        complete_chats-EachIsChat 0 raws ms chats (EachMaps-SameLength state_dir raws ms mapped)
          h1 in
      record {
        some_chat = given;
        each = each;
        mapped = subst (EachMaps libraries.system state_dir raws) (sym same) mapped;
        apart = subst (AllApart libraries.system []) (sym same) apart;
      }

  -- What every use of the settings relies on.
  pub record AreValid (raw : RawConfig) (config_path : Text) (s : Settings) : Type 0 where
    pub limit : (pos 64 ≤ℤ s.message_limit) × (s.message_limit ≤ℤ telegram_hard_message_limit)
    pub retries : pos 0 ≤ℤ s.alib_max_retries
    pub delay : pos 0 ≤ℤ s.alib_download_delay
    pub timeout : pos 0 <ℤ s.http_timeout
    pub cron : libraries.cron_is_valid s.cron_schedule ≡ true
    pub policy : IsOptionalPolicy s.fresh_books
    pub directory : resolve_state_dir libraries.cwd raw.state_path config_path ≡ some s.state_path
    pub recipients : AreChats s.state_path raw.chats s.chats

  or_refuse-done :
      {A : Type 0} (e : Problem) (o : Option A) (a : A) → or_refuse e o ≡ done a → o ≡ some a
  or_refuse-done e none a h = cc h
  or_refuse-done e (some b) a h = ap some (done-injective h)

  -- Settings that are accepted are within their bounds, and the bounds of Telegram; a policy on fresh
  -- books is in range; there is a recipient, every recipient has a token and the URLs of its sources,
  -- and the recipients are apart in their names and their state files.
  pub validate-AreValid :
      (raw : RawConfig) (config_path : Text) (s : Settings)
      → validate libraries raw config_path ≡ done s
      → AreValid raw config_path s
  unfolding validate
  validate-AreValid raw config_path s h =
      let retries : ℤ = value_or raw.alib_max_retries default_alib_max_retries in
      let limit : ℤ = value_or raw.message_limit default_message_limit in
      let (cron, h1) =
        require-eq-done (libraries.cron_is_valid (value_or raw.cron_schedule default_cron_schedule))
          bad_cron_schedule _ h in
      let (tries, h2) = require-eq-done (not (is_negative retries)) bad_max_retries _ h1 in
      let (within, h3) = require-eq-done (limit_in_range limit) bad_message_limit _ h2 in
      let (location, e4, h4) =
        >>=-eq-done
          (or_refuse bad_timezone
            (libraries.load_location (value_or raw.timezone default_timezone)))
          _ h3 in
      let (timeout, e5, h5) =
        >>=-eq-done (parse_duration libraries.duration raw.http_timeout) _ h4 in
      let (delay, e6, h6) =
        >>=-eq-done (parse_non_negative_duration libraries.duration raw.alib_download_delay) _ h5 in
      let (policy, e7, h7) = >>=-eq-done (fresh_books_policy raw.fresh_books) _ h6 in
      let (state_dir, e8, h8) =
        >>=-eq-done
          (or_refuse bad_state_path (resolve_state_dir libraries.cwd raw.state_path config_path)) _
          h7 in
      let (chats, e9, h9) = >>=-eq-done (validate_chats libraries raw.chats state_dir) _ h8 in
      subst (AreValid raw config_path) (done-injective h9) (record {
        limit = (ground (arith, within), ground (arith, within));
        retries = ground (arith, tries);
        delay = parse_delay-natural libraries.duration raw.alib_download_delay delay e6;
        timeout = parse_duration-positive libraries.duration raw.http_timeout timeout e5;
        cron = cron;
        policy = fresh_books_policy-IsPolicy raw.fresh_books policy e7;
        directory = or_refuse-done bad_state_path _ state_dir e8;
        recipients = validate_chats-AreChats raw.chats state_dir chats e9;
      })
