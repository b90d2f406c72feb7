-- ===== src/Command/Snapshot/Recipients.antt =====
-- cmd/alib-fetcher/main.go: the recipient of one chat, and those of all chats.
use alib_fetcher.Base.{
  ◌≡◌, ◌≢◌, refl, ℤ, pos, ltb_ℤ, ◌≤ℤ◌, ◌<ℤ◌, List, [], ◌∷◌, Text, Option, some, Bool, true, false,
  is_empty, trim_space, All, done, arith,
}
use alib_fetcher.Alib.Client.{Address, AlibClient, parse_endpoints, new_alib_client, has_no_urls}
use alib_fetcher.Telegram.Client.{Client, new_sender}
use alib_fetcher.Config.Search.Checks.{value_at}
use alib_fetcher.Config.Search.Urls.Nonempty.{build_search_urls-nonempty}
use alib_fetcher.Config.StateFiles.{RawChat}
use alib_fetcher.Config.Settings.{Libraries, Chat, Settings, search_of}
use alib_fetcher.Config.Settings.Valid.{EachIsChat}
use alib_fetcher.Command.Snapshot.{RuntimeFactory, Recipient, make_recipient, make_recipients}
use alib_fetcher.Command.Snapshot.Tokens.{above_zero, client_for-HasClient}
use alib_fetcher.Command.Snapshot.Clients.{
  Clients, IsKept, HaveTokens, IsKept-found, IsKept-refl, IsKept-trans,
}

not_below_zero : (n : ℤ) → pos 0 ≤ℤ n → ltb_ℤ n (pos 0) ≡ false
not_below_zero n h = ground (arith, h)

-- Whose endpoints are addresses, with a name that is not blank.
abbrev pub IsUsable : (Text → Option Address) → Chat → Type 0
IsUsable parse_url chat =
    ((endpoints : List Address) × (parse_endpoints parse_url 0 chat.alib_urls ≡ done endpoints))
    × (is_empty (trim_space chat.chat_id) ≡ false)

-- With a token, and something to fetch.
abbrev pub IsReady : Chat → Type 0
IsReady chat = (is_empty chat.telegram_token ≡ false) × (has_no_urls chat.alib_urls ≡ false)

has_no_urls-nonempty : (urls : List Text) → urls ≢ [] → has_no_urls urls ≡ false
has_no_urls-nonempty [] h = absurd (h refl)
has_no_urls-nonempty (url ∷ urls) h = refl

pub EachIsChat-IsReady :
    (libraries : Libraries) (raws : List RawChat) (chats : List Chat)
    → EachIsChat libraries raws chats
    → All IsReady chats
EachIsChat-IsReady libraries [] [] each = tt
EachIsChat-IsReady libraries [] (chat ∷ chats) each = absurd each
EachIsChat-IsReady libraries (raw ∷ raws) [] each = tt
EachIsChat-IsReady libraries (raw ∷ raws) (chat ∷ chats) each = (
  (
    each.0.token.1,
    has_no_urls-nonempty chat.alib_urls (
        build_search_urls-nonempty libraries.windows_1251 (search_of raw) chat.alib_urls
          each.0.urls),
  ),
  EachIsChat-IsReady libraries raws chats each.1,
)

-- The recipient of a chat: its sender and its listener share the client of the chat's token.
pub record IsServed (clients : Clients) (chat : Chat) (recipient : Recipient) : Type 0 where
  pub name : recipient.chat_id ≡ chat.chat_id
  pub state : recipient.state_path ≡ chat.state_path
  pub token : recipient.callbacks.client.token ≡ chat.telegram_token
  pub shared : value_at chat.telegram_token clients ≡ some recipient.callbacks
  pub sender :
      recipient.sender ≡ record { client = recipient.callbacks.client; chat_id = chat.chat_id }

IsServed-kept :
    (before after : Clients) (chat : Chat) (recipient : Recipient)
    → IsKept before after
    → IsServed before chat recipient
    → IsServed after chat recipient
IsServed-kept before after chat recipient kept served = record {
  name = served.name;
  state = served.state;
  token = served.token;
  shared = IsKept-found chat.telegram_token recipient.callbacks before after kept served.shared;
  sender = served.sender;
}

abbrev pub EachServed : Clients → List Chat → List Recipient → Type 0
EachServed clients [] [] = Unit
EachServed clients [] (recipient ∷ recipients) = ⊥
EachServed clients (chat ∷ chats) [] = ⊥
EachServed clients (chat ∷ chats) (recipient ∷ recipients) =
    IsServed clients chat recipient × EachServed clients chats recipients

new_sender-done :
    (client : Client) (chat_id : Text)
    → is_empty (trim_space chat_id) ≡ false
    → new_sender client chat_id ≡ done (record { client = client; chat_id = chat_id })
unfolding new_sender
new_sender-done client chat_id named = rw named refl

module _ (parse_url : Text → Option Address) (makes_bot : Text → ℤ → Bool)
    (makes : (token : Text) (timeout : ℤ)
      → is_empty token ≡ false
      → makes_bot token timeout ≡ true) where
  module _ (settings : Settings) (timeout : pos 0 <ℤ settings.http_timeout)
      (delay : pos 0 ≤ℤ settings.alib_download_delay)
      (retries : pos 0 ≤ℤ settings.alib_max_retries) where
    new_alib_client-done :
        (urls : List Text) (endpoints : List Address)
        → has_no_urls urls ≡ false
        → parse_endpoints parse_url 0 urls ≡ done endpoints
        → (fetcher : AlibClient) × (new_alib_client parse_url urls settings.http_timeout
              settings.alib_download_delay settings.alib_max_retries
            ≡ done fetcher)
    unfolding new_alib_client
    new_alib_client-done urls endpoints some_url parsed = (
      record {
        endpoints = endpoints;
        timeout = settings.http_timeout;
        download_delay = settings.alib_download_delay;
        max_retries = settings.alib_max_retries;
      },
      rw
          (
            above_zero settings.http_timeout timeout,
            not_below_zero settings.alib_max_retries retries,
            not_below_zero settings.alib_download_delay delay,
            some_url,
            parsed,
          )
          refl,
    )

    abbrev HasRecipient : RuntimeFactory → Chat → Type 0
    HasRecipient factory chat =
        (after : RuntimeFactory) × (recipient : Recipient) × (make_recipient parse_url makes_bot
            settings chat factory
          ≡ (after, done recipient))
        × IsServed after.clients chat recipient
        × IsKept factory.clients after.clients
        × HaveTokens after.clients

    make_recipient-HasRecipient :
        (factory : RuntimeFactory) (chat : Chat)
        → IsReady chat
        → IsUsable parse_url chat
        → HaveTokens factory.clients
        → HasRecipient factory chat
    unfolding make_recipient
    make_recipient-HasRecipient factory chat (token, some_url) ((endpoints, parsed), named) tokens =
        let (fetcher, fetched) = new_alib_client-done chat.alib_urls endpoints some_url parsed in
        let (after, handle, found, own, shared, kept, have) =
          client_for-HasClient parse_url makes_bot makes factory chat.telegram_token
            settings.http_timeout token timeout tokens in
        (
          after,
          record {
            chat_id = chat.chat_id;
            state_path = chat.state_path;
            callbacks = handle;
            fetcher = fetcher;
            sender = record { client = handle.client; chat_id = chat.chat_id };
            fresh_books = settings.fresh_books;
            location = settings.location;
            message_limit = settings.message_limit;
          },
          rw (fetched, found, new_sender-done handle.client chat.chat_id named) refl,
          record { name = refl; state = refl; token = own; shared = shared; sender = refl },
          kept,
          have,
        )

    abbrev pub HasRecipients : RuntimeFactory → List Chat → Type 0
    HasRecipients factory chats =
        (after : RuntimeFactory) × (recipients : List Recipient) × (make_recipients parse_url
            makes_bot settings chats factory
          ≡ (after, done recipients))
        × EachServed after.clients chats recipients
        × IsKept factory.clients after.clients
        × HaveTokens after.clients

    pub make_recipients-HasRecipients :
        (chats : List Chat) (factory : RuntimeFactory)
        → All IsReady chats
        → All (IsUsable parse_url) chats
        → HaveTokens factory.clients
        → HasRecipients factory chats
    unfolding make_recipients
    make_recipients-HasRecipients [] factory ready usable tokens =
        (factory, [], refl, tt, IsKept-refl factory.clients, tokens)
    make_recipients-HasRecipients (chat ∷ chats) factory ready usable tokens =
        let (middle, recipient, made, served, kept, have) =
          make_recipient-HasRecipient factory chat ready.0 usable.0 tokens in
        let (after, recipients, all_made, each, more, still) =
          make_recipients-HasRecipients chats middle ready.1 usable.1 have in
        (
          after,
          recipient ∷ recipients,
          rw (made, all_made) refl,
          (IsServed-kept middle.clients after.clients chat recipient more served, each),
          IsKept-trans factory.clients middle.clients after.clients kept more,
          still,
        )
