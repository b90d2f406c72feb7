-- ===== src/Command/Snapshot/Tokens.antt =====
-- cmd/alib-fetcher/main.go: the client that the factory has for a token.
use alib_fetcher.Base.{
  suc, ◌≡◌, refl, inl, inr, ℤ, pos, ltb_ℤ, ◌<ℤ◌, List, [], ◌∷◌, Text, Option, some, Bool, true,
  false, text_eq_iff, is_empty, Option-cases, done, arith,
}
use alib_fetcher.Alib.Client.{Address}
use alib_fetcher.Telegram.Client.{Client, new_client, sdk_poll_timeout}
use alib_fetcher.Telegram.Secrets.{standard_api_base}
use alib_fetcher.Config.Search.Checks.{value_at}
use alib_fetcher.Command.Snapshot.{Handle, RuntimeFactory, client_for}
use alib_fetcher.Command.Snapshot.Clients.{IsKept, HaveTokens, value_at-All, IsKept-refl}

value_at_head :
    {A : Type 0} (t : Text) (v : A) (xs : List (Text × A)) → value_at t ((t, v) ∷ xs) ≡ some v
unfolding value_at
value_at_head t v xs = rw ((text_eq_iff t t).1 refl) refl

pub above_zero : (n : ℤ) → pos 0 <ℤ n → ltb_ℤ (pos 0) n ≡ true
above_zero n h = ground (arith, h)

module _ (parse_url : Text → Option Address) (makes_bot : Text → ℤ → Bool)
    (makes : (token : Text) (timeout : ℤ)
      → is_empty token ≡ false
      → makes_bot token timeout ≡ true) where
  new_client-token :
      (token : Text) (timeout : ℤ)
      → is_empty token ≡ false
      → pos 0 <ℤ timeout
      → (client : Client) × (new_client makes_bot token timeout ≡ done client)
        × (client.token ≡ token)
  unfolding new_client
  new_client-token token timeout given positive = (
    record {
      token = token;
      secrets = token ∷ standard_api_base ∷ [];
      timeout = timeout;
      http_timeout = timeout;
      poll_timeout = sdk_poll_timeout timeout;
    },
    rw (given, above_zero timeout positive, makes token (sdk_poll_timeout timeout) given) refl,
    refl,
  )

  abbrev pub HasClient : RuntimeFactory → Text → ℤ → Type 0
  HasClient factory token timeout =
      (after : RuntimeFactory) × (handle : Handle) × (client_for parse_url makes_bot token timeout
          factory
        ≡ (after, done handle))
      × (handle.client.token ≡ token)
      × (value_at token after.clients ≡ some handle)
      × IsKept factory.clients after.clients
      × HaveTokens after.clients

  pub client_for-HasClient :
      (factory : RuntimeFactory) (token : Text) (timeout : ℤ)
      → is_empty token ≡ false
      → pos 0 <ℤ timeout
      → HaveTokens factory.clients
      → HasClient factory token timeout
  unfolding client_for
  client_for-HasClient factory token timeout given positive tokens =
      elim (Option-cases (value_at token factory.clients)) [
        | inr (handle, found) ↦ (
          factory,
          handle,
          rw found refl,
          value_at-All (λ entry. entry.1.client.token ≡ entry.0) token factory.clients handle found
              tokens,
          found,
          IsKept-refl factory.clients,
          tokens,
        )
        | inl missing ↦
            let (client, made, own) = new_client-token token timeout given positive in
            let handle : Handle = record { pointer = factory.next_pointer; client = client } in
            (
              record {
                clients = (token, handle) ∷ factory.clients;
                next_pointer = suc factory.next_pointer;
              },
              handle,
              rw (missing, made) refl,
              own,
              value_at_head token handle factory.clients,
              ((token, handle) ∷ [], refl, (missing, tt)),
              (own, tokens),
            )
      ]
