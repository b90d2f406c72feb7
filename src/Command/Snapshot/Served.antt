-- ===== src/Command/Snapshot/Served.antt =====
-- cmd/alib-fetcher/main.go: `snapshot` serves the chats of a configuration that is accepted.
use alib_fetcher.Base.{
  ◌≡◌, ◌≢◌, refl, sym, subst, ◌∙◌, ℤ, List, [], ◌∷◌, Text, Option, Bool, true, false, is_empty,
  keep, All, done, refused,
}
use alib_fetcher.Alib.Client.{Address}
use alib_fetcher.Config.StateFiles.{RawChat}
use alib_fetcher.Config.Settings.{Libraries, RawConfig, Chat, Settings}
use alib_fetcher.Config.Settings.Valid.{EachIsChat, AreValid}
use alib_fetcher.Command.Snapshot.{
  RuntimeFactory, Recipient, Snapshot, Made, unknown_selected, is_selected, finished, snapshot,
}
use alib_fetcher.Command.Snapshot.Clients.{IsKept, HaveTokens, All-keep}
use alib_fetcher.Command.Snapshot.Recipients.{
  IsUsable, IsReady, EachIsChat-IsReady, EachServed, make_recipients-HasRecipients,
}

abbrev pub chosen : Settings → Text → List Chat
chosen settings selected_chat = keep (is_selected selected_chat) settings.chats

-- The chosen chats are served, in order, or the one that is asked for is not there. Clients that were
-- made before are kept.
abbrev pub Answers : Settings → Text → RuntimeFactory → Made Snapshot → Type 0
Answers settings selected_chat factory (after, done s) =
    EachServed after.clients (chosen settings selected_chat) s.recipients
    × (chosen settings selected_chat ≢ [])
    × (s.key ≡ settings)
    × IsKept factory.clients after.clients
    × HaveTokens after.clients
Answers settings selected_chat factory (after, refused problem) =
    (chosen settings selected_chat ≡ [])
    × (is_empty selected_chat ≡ false)
    × (problem ≡ unknown_selected selected_chat)
    × IsKept factory.clients after.clients
    × HaveTokens after.clients

keep_all : (chats : List Chat) → keep (is_selected []) chats ≡ chats
unfolding keep
keep_all [] = refl
keep_all (chat ∷ chats) = rw (keep_all chats) refl

some_name :
    (settings : Settings) (selected_chat : Text)
    → settings.chats ≢ []
    → chosen settings selected_chat ≡ []
    → is_empty selected_chat ≡ false
some_name settings [] some_chat none_chosen =
    absurd (some_chat (sym (keep_all settings.chats) ∙ none_chosen))
some_name settings (c ∷ cs) some_chat none_chosen = refl

EachIsChat-nonempty :
    (libraries : Libraries) (raws : List RawChat) (chats : List Chat)
    → raws ≢ []
    → EachIsChat libraries raws chats
    → chats ≢ []
EachIsChat-nonempty libraries [] chats some_chat each e = some_chat refl
EachIsChat-nonempty libraries (raw ∷ raws) [] some_chat each e = each
EachIsChat-nonempty libraries (raw ∷ raws) (chat ∷ chats) some_chat each e = cc e

finished-Answers :
    (settings : Settings) (selected_chat : Text) (factory after : RuntimeFactory)
    (chats : List Chat) (recipients : List Recipient)
    → settings.chats ≢ []
    → chosen settings selected_chat ≡ chats
    → EachServed after.clients chats recipients
    → IsKept factory.clients after.clients
    → HaveTokens after.clients
    → Answers settings selected_chat factory
        (finished settings selected_chat (after, done recipients))
finished-Answers settings selected_chat factory after [] [] some_chat e each kept tokens =
    let named = some_name settings selected_chat some_chat e in
    (e, named, rw named refl, kept, tokens)
finished-Answers settings selected_chat factory after [] (r ∷ rs) some_chat e each kept tokens =
    absurd each
finished-Answers settings selected_chat factory after (c ∷ cs) [] some_chat e each kept tokens =
    absurd each
finished-Answers settings selected_chat factory after (c ∷ cs) (r ∷ rs) some_chat e each kept
      tokens =
    (
      subst (λ chats. EachServed after.clients chats (r ∷ rs)) (sym e) each,
      λ none_chosen. cc (sym e ∙ none_chosen),
      refl,
      kept,
      tokens,
    )

module _ (parse_url : Text → Option Address) (makes_bot : Text → ℤ → Bool)
    (makes : (token : Text) (timeout : ℤ)
      → is_empty token ≡ false
      → makes_bot token timeout ≡ true) where
  -- Of settings that `validate` accepts every chat that is chosen becomes a recipient, in order, with
  -- its own state file, its sender and its listener on one client, which is the only one of its
  -- token; clients made for earlier settings are kept. Nothing else goes wrong than that a chat is asked for
  -- that is not there. This needs that the URLs are addresses for net/url, that no name is blank,
  -- and that the SDK makes a bot of every token.
  pub snapshot-Answers :
      (libraries : Libraries) (raw : RawConfig) (config_path : Text) (settings : Settings)
      (selected_chat : Text) (factory : RuntimeFactory)
      → AreValid libraries raw config_path settings
      → All (IsUsable parse_url) settings.chats
      → HaveTokens factory.clients
      → Answers settings selected_chat factory
          (snapshot parse_url makes_bot settings selected_chat factory)
  unfolding snapshot
  snapshot-Answers libraries raw config_path settings selected_chat factory valid usable tokens =
      let chats = chosen settings selected_chat in
      let each = valid.recipients.each in
      let (after, recipients, made, served, kept, have) =
        make_recipients-HasRecipients parse_url makes_bot makes settings valid.timeout valid.delay
          valid.retries chats factory
          (All-keep IsReady (is_selected selected_chat) settings.chats
            (EachIsChat-IsReady libraries raw.chats settings.chats each))
          (All-keep (IsUsable parse_url) (is_selected selected_chat) settings.chats usable)
          tokens in
      rw made (
        finished-Answers settings selected_chat factory after chats recipients
          (EachIsChat-nonempty libraries raw.chats settings.chats valid.recipients.some_chat each)
          refl served kept have)
