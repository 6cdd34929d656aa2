-- ===== src/Integrations/Http.antt =====
-- src/edgesentinel/integrations/http.py: events posted to a webhook. The transport is a parameter.
use edge_sentinel.Prelude.{List, Option, String, [], if◌then◌else◌, none, some, str_eq, ℕ, ◌∷◌}
use edge_sentinel.Core.Effects.{Action, catch, done, lift, ◌>>=◌}
use edge_sentinel.Core.Events.{Event, Severity}
use edge_sentinel.Integrations.Subscription.{Encoding, event_payload, is_filtered}

abbrev Headers : Type 0
Headers = List (String × String)

-- `{"Content-Type": ..., **headers}`: a key that comes again keeps its place and takes the new value.
abbrev set_header : String → String → Headers → Headers
set_header key value [] = (key, value) ∷ []
set_header key value ((k, v) ∷ rest) =
    if str_eq k key then (k, value) ∷ rest else (k, v) ∷ set_header key value rest

merge : Headers → Headers → Headers
merge base [] = base
merge base ((k, v) ∷ rest) = merge (set_header k v base) rest

-- The fields that `HttpEventPublisher.__init__` sets. The attachment is a `Link`.
pub record HttpEventPublisher (W : Type 0) : Type 0 where
  pub url : String
  pub headers : Headers
  pub timeout : ℕ
  pub min_severity : Option Severity
  pub transport : String → String → Headers → ℕ → Action W ℕ
  pub encoding : Encoding

-- `HttpEventPublisher.__init__`.
unfoldable create : {W : Type 0} → HttpEventPublisher W → Option Headers → HttpEventPublisher W
unfolding merge
create args headers = record args {
  headers =
      merge (("Content-Type", "application/json") ∷ []) (elim headers [ none ↦ [] | some h ↦ h ]);
}

module _ {W : Type 0} (publisher : HttpEventPublisher W) where
  -- The body of the `try`. A status of an error is only logged.
  unfoldable post : Event → Action W Unit
  unfolding event_payload
  post event = do
    body ← lift (event_payload publisher.encoding event)
    status ← publisher.transport publisher.url body publisher.headers publisher.timeout
    done

  unfoldable pub on_event : Event → Action W Unit
  unfolding is_filtered post
  on_event event =
      if is_filtered publisher.min_severity event then done else catch (post event) (λ e. done)
