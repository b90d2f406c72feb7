-- ===== src/Command/Snapshot.antt =====
-- cmd/alib-fetcher/main.go: `runtimeFactory.snapshot`, which makes the recipients of a configuration
-- and keeps one client of Telegram for every token. The parsers and the SDK are parameters.
pub mod Clients
pub mod Tokens
pub mod Recipients
pub mod Served
use alib_fetcher.Base.{
  ℕ, suc, ℤ, List, [], ◌∷◌, Text, Option, none, some, Bool, not, ◌||◌, if◌then◌else◌, text_eq,
  is_empty, keep, Outcome, done, refused, ◌>>=◌,
}
use alib_fetcher.Alib.Client.{Address, AlibClientProblem, AlibClient, new_alib_client}
use alib_fetcher.Telegram.Client.{Client, Sender, ClientProblem, new_client, new_sender}
use alib_fetcher.Config.FreshBooks.{FreshBooksPolicy}
use alib_fetcher.Config.Search.Checks.{value_at}
use alib_fetcher.Config.Settings.{Chat, Settings}

-- A client with what stands for its pointer.
pub record Handle : Type 0 where
  pub pointer : ℕ
  pub client : Client

-- `runtimeFactory`, with the next free pointer.
pub record RuntimeFactory : Type 0 where
  pub clients : List (Text × Handle)
  pub next_pointer : ℕ

pub data SnapshotProblem : Type 0 where
  bad_alib_client : AlibClientProblem → SnapshotProblem
  bad_telegram : ClientProblem → SnapshotProblem
  no_recipients : SnapshotProblem
  unknown_selected : Text → SnapshotProblem

-- `Recipient`, its dependencies laid open.
pub record Recipient : Type 0 where
  pub chat_id : Text
  pub state_path : Text
  pub callbacks : Handle
  pub fetcher : AlibClient
  pub sender : Sender
  pub fresh_books : Option FreshBooksPolicy
  pub location : ℕ
  pub message_limit : ℤ

-- `ReloadSnapshot` without its function `Prepare`.
pub record Snapshot : Type 0 where
  pub cron_spec : Text
  pub location : ℕ
  pub run_on_startup : Bool
  pub recipients : List Recipient
  pub key : Settings

abbrev pub Made : Type 0 → Type 0
Made A = RuntimeFactory × Outcome SnapshotProblem A

abbrev pub is_selected : Text → Chat → Bool
is_selected selected_chat chat = is_empty selected_chat || text_eq chat.chat_id selected_chat

abbrev pub registered :
    Text
    → RuntimeFactory
    → Outcome ClientProblem Client
    → RuntimeFactory × Outcome ClientProblem Handle
registered token factory (refused problem) = (factory, refused problem)
registered token factory (done client) =
    let handle : Handle = record { pointer = factory.next_pointer; client = client } in
    (
      record {
        clients = (token, handle) ∷ factory.clients;
        next_pointer = suc factory.next_pointer;
      },
      done handle,
    )

abbrev pub with_recipient :
    Settings
    → Chat
    → AlibClient
    → RuntimeFactory
    → Handle
    → Outcome ClientProblem Sender
    → Made Recipient
with_recipient settings chat fetcher factory handle (refused problem) =
    (factory, refused (bad_telegram problem))
with_recipient settings chat fetcher factory handle (done sender) = (
  factory,
  done (record {
    chat_id = chat.chat_id;
    state_path = chat.state_path;
    callbacks = handle;
    fetcher = fetcher;
    sender = sender;
    fresh_books = settings.fresh_books;
    location = settings.location;
    message_limit = settings.message_limit;
  }),
)

abbrev pub with_client :
    Settings → Chat → AlibClient → RuntimeFactory × Outcome ClientProblem Handle → Made Recipient
with_client settings chat fetcher (factory, refused problem) =
    (factory, refused (bad_telegram problem))
with_client settings chat fetcher (factory, done handle) =
    with_recipient settings chat fetcher factory handle (new_sender handle.client chat.chat_id)

-- The next recipient, and those behind it.
abbrev pub joined : Recipient → Made (List Recipient) → Made (List Recipient)
joined recipient (factory, refused problem) = (factory, refused problem)
joined recipient (factory, done recipients) = (factory, done (recipient ∷ recipients))

abbrev pub followed :
    (RuntimeFactory → Made (List Recipient)) → Made Recipient → Made (List Recipient)
followed continue (factory, refused problem) = (factory, refused problem)
followed continue (factory, done recipient) = joined recipient (continue factory)

abbrev pub finished : Settings → Text → Made (List Recipient) → Made Snapshot
finished settings selected_chat (factory, refused problem) = (factory, refused problem)
finished settings selected_chat (factory, done []) = (
  factory,
  refused (if is_empty selected_chat then no_recipients else unknown_selected selected_chat),
)
finished settings selected_chat (factory, done (recipient ∷ recipients)) = (
  factory,
  done (record {
    cron_spec = settings.cron_schedule;
    location = settings.location;
    run_on_startup = settings.run_on_startup;
    recipients = recipient ∷ recipients;
    key = settings;
  }),
)

module _ (parse_url : Text → Option Address) (makes_bot : Text → ℤ → Bool) where
  -- The client of a token, which is made if there is none.
  abbrev pub found_or_made :
      Text → ℤ → RuntimeFactory → Option Handle → RuntimeFactory × Outcome ClientProblem Handle
  found_or_made token timeout factory none =
      registered token factory (new_client makes_bot token timeout)
  found_or_made token timeout factory (some handle) = (factory, done handle)

  unfoldable pub client_for :
      Text → ℤ → RuntimeFactory → RuntimeFactory × Outcome ClientProblem Handle
  client_for token timeout factory =
      found_or_made token timeout factory (value_at token factory.clients)

  abbrev pub with_fetcher :
      Settings → Chat → RuntimeFactory → Outcome AlibClientProblem AlibClient → Made Recipient
  with_fetcher settings chat factory (refused problem) =
      (factory, refused (bad_alib_client problem))
  with_fetcher settings chat factory (done fetcher) =
      with_client settings chat fetcher
        (client_for chat.telegram_token settings.http_timeout factory)

  -- One pass of the loop.
  unfoldable pub make_recipient : Settings → Chat → RuntimeFactory → Made Recipient
  make_recipient settings chat factory = with_fetcher settings chat factory (
      new_alib_client parse_url chat.alib_urls settings.http_timeout settings.alib_download_delay
        settings.alib_max_retries)

  -- The loop, over the chats that are not passed over.
  unfoldable pub make_recipients : Settings → List Chat → RuntimeFactory → Made (List Recipient)
  make_recipients settings [] factory = (factory, done [])
  make_recipients settings (chat ∷ chats) factory =
      followed (make_recipients settings chats) (make_recipient settings chat factory)

  unfoldable pub snapshot : Settings → Text → RuntimeFactory → Made Snapshot
  snapshot settings selected_chat factory =
      finished settings selected_chat
        (make_recipients settings (keep (is_selected selected_chat) settings.chats) factory)
