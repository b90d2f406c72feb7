-- ===== src/Alib/Client.antt =====
-- internal/alib/client.go: the settings of a client, `NewClient`. The parser of net/url is a
-- parameter. The logger is always there.
use alib_fetcher.Base.{
  ℕ, suc, ℤ, pos, ltb_ℤ, List, [], ◌∷◌, Text, text, Option, none, some, Bool, true, false, not,
  ◌||◌, text_eq, is_empty, trim_space, Outcome, done, refused, require, ◌>>=◌, ◌>>◌,
}

-- `url.URL`, as far as it is tested; `text` stands for the whole.
pub record Address : Type 0 where
  pub address : Text
  pub scheme : Text
  pub host : Text
  pub has_user : Bool

pub data AlibClientProblem : Type 0 where
  bad_timeout bad_retries bad_delay no_url : AlibClientProblem
  empty_url unparsed_url unsupported_scheme missing_host has_userinfo : ℕ → AlibClientProblem

pub record AlibClient : Type 0 where
  pub endpoints : List Address
  pub timeout : ℤ
  pub download_delay : ℤ
  pub max_retries : ℤ

abbrev pub parsed_or : AlibClientProblem → Option Address → Outcome AlibClientProblem Address
parsed_or problem none = refused problem
parsed_or problem (some endpoint) = done endpoint

abbrev pub has_no_urls : List Text → Bool
has_no_urls [] = true
has_no_urls (url ∷ urls) = false

module _ (parse_url : Text → Option Address) where
  unfoldable pub parse_endpoint : ℕ → Text → Outcome AlibClientProblem Address
  parse_endpoint index raw_url = do
    require (not (is_empty (trim_space raw_url))) (empty_url index)
    endpoint ← parsed_or (unparsed_url index) (parse_url (trim_space raw_url))
    require (text_eq endpoint.scheme (text "http") || text_eq endpoint.scheme (text "https"))
        (unsupported_scheme index)
    require (not (is_empty endpoint.host)) (missing_host index)
    require (not endpoint.has_user) (has_userinfo index)
    done endpoint

  unfoldable pub parse_endpoints : ℕ → List Text → Outcome AlibClientProblem (List Address)
  parse_endpoints index [] = done []
  parse_endpoints index (raw_url ∷ raw_urls) = do
    endpoint ← parse_endpoint index raw_url
    rest ← parse_endpoints (suc index) raw_urls
    done (endpoint ∷ rest)

  unfoldable pub new_alib_client : List Text → ℤ → ℤ → ℤ → Outcome AlibClientProblem AlibClient
  new_alib_client raw_urls timeout download_delay max_retries = do
    require (ltb_ℤ (pos 0) timeout) bad_timeout
    require (not (ltb_ℤ max_retries (pos 0))) bad_retries
    require (not (ltb_ℤ download_delay (pos 0))) bad_delay
    require (not (has_no_urls raw_urls)) no_url
    endpoints ← parse_endpoints 0 raw_urls
    done (record {
      endpoints = endpoints;
      timeout = timeout;
      download_delay = download_delay;
      max_retries = max_retries;
    })
