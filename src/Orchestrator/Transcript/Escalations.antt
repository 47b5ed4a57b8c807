-- ===== src/Orchestrator/Transcript/Escalations.antt =====
-- What becomes of the card of a request.
use otacon.Prelude.{
  ℕ, String, zero, suc, ◌≡◌, refl, ap, ◌∙◌, Bool, false, Option, none, some, List, [], ◌∷◌, ◌++◌,
  arith, inl, inr, length, get_elem?, set, ◌==◌, ==_self, if◌then◌else◌, All, Bool-cases,
}
use otacon.Prelude.JsMap.{get, get-put}
use otacon.Orchestrator.Transcript.{
  Item, message, phone_action, system, user_text, escalation, Card, CardStatus, pending, resolved,
  Store, Event, ingest, ingest_all, handle_pi_event, agent_start, message_start, message_update,
  message_end, agent_ends, agent_fails, other_event, system_set, user_message, phone_acts,
  requested, resolves, pi, Decision, resolve_at, resolve_found, append, orphan, resolve_card,
}

-- Does the event open a request with the token?
abbrev pub asks : ℕ → Event → Bool
asks token (requested t payload ts) = t == token
asks token _ = false

abbrev pub request_card : ℕ → ℕ → ℕ → CardStatus → Card
request_card token payload ts status = record {
  token = token;
  payload = some payload;
  status = status;
  ts = ts;
}

-- The index points at the card of the request, whatever its status.
abbrev Tracked : ℕ → ℕ → ℕ → ℕ → Store → Type 0
Tracked token payload ts i s =
    (get token s.escalation_index ≡ some i)
    × (status : CardStatus) × (get_elem? s.state.items i
        ≡ some (escalation ts (request_card token payload ts status)))

abbrev settle : Decision → Option String → Item → Item
settle d m (escalation ts c) = escalation ts (resolve_card c d m)
settle d m item = item

get_elem?-end : (xs : List Item) (x : Item) → get_elem? (xs ++ x ∷ []) (length xs) ≡ some x
get_elem?-end [] x = refl
get_elem?-end (y ∷ xs) x = get_elem?-end xs x

get_elem?-append :
    (xs : List Item) (y x : Item) (i : ℕ)
    → get_elem? xs i ≡ some x
    → get_elem? (xs ++ y ∷ []) i ≡ some x
get_elem?-append [] y x i e = cc
get_elem?-append (z ∷ xs) y x zero e = e
get_elem?-append (z ∷ xs) y x (suc i) e = get_elem?-append xs y x i e

get_elem?-set :
    (xs : List Item) (i j : ℕ) (x y : Item)
    → get_elem? xs i ≡ some x
    → get_elem? (set xs j y) i ≡ some (if i == j then y else x)
get_elem?-set [] i j x y e = cc
get_elem?-set (z ∷ xs) zero zero x y e = ground (arith, e)
get_elem?-set (z ∷ xs) zero (suc j) x y e = ground (arith, e)
get_elem?-set (z ∷ xs) (suc i) zero x y e = ground (arith, e)
get_elem?-set (z ∷ xs) (suc i) (suc j) x y e = ground (arith, get_elem?-set xs i j x y e)

module _ (token payload ts : ℕ) (i : ℕ) where
  start :
      (s : Store)
      → i ≡ length s.state.items
      → Tracked token payload ts i (ingest s (requested token payload ts))
  unfolding ingest
  start s e = (
    ground (arith, get-put token token (length s.state.items) s.escalation_index),
    pending,
    rw e (get_elem?-end s.state.items _),
  )

  append-Tracked :
      (s : Store) (x : Item)
      → Tracked token payload ts i s
      → Tracked token payload ts i (append s x)
  append-Tracked s x (at, st, here) = (at, st, get_elem?-append s.state.items x _ i here)

  resolve_at-Tracked :
      (s : Store) (j : ℕ) (d : Decision) (m : Option String)
      → Tracked token payload ts i s
      → Tracked token payload ts i (resolve_at s j (get_elem? s.state.items j) d m)
  resolve_at-Tracked s j d m (at, st, here) = go (get_elem? s.state.items j) refl
    where
      same : Tracked token payload ts i s
      same = (at, st, here)

      go :
          (x : Option Item)
          → get_elem? s.state.items j ≡ x
          → Tracked token payload ts i (resolve_at s j x d m)
      go none e = same
      go (some (message v x)) e = same
      go (some (phone_action v x)) e = same
      go (some (system v x)) e = same
      go (some (user_text v x)) e = same
      go (some (escalation v c)) e = elim (Bool-cases (i == j)) [
        | inl hit ↦
            let ij : i ≡ j = ground (arith, hit) in
            let seen : escalation v c ≡ escalation ts (request_card token payload ts st) =
              (ground (arith, e, here, ij)) in
            (
              at,
              resolved d m,
              get_elem?-set s.state.items i j _ _ here
                  ∙ rw hit (ap (λ x. some (settle d m x)) seen),
            )
        | inr miss ↦ (at, st, get_elem?-set s.state.items i j _ _ here ∙ ground (arith, miss))
      ]

  ingest-Tracked :
      (s : Store) (e : Event)
      → asks token e ≡ false
      → Tracked token payload ts i s
      → Tracked token payload ts i (ingest s e)
  unfolding ingest handle_pi_event
  ingest-Tracked s (system_set prompt u) n t = append-Tracked s (system u prompt) t
  ingest-Tracked s (user_message text u) n t = t
  ingest-Tracked s (phone_acts p u) n t = append-Tracked s (phone_action u p) t
  ingest-Tracked s (requested other p u) n (at, st, here) = (
    ground (arith, get-put other token (length s.state.items) s.escalation_index),
    st,
    get_elem?-append s.state.items _ _ i here,
  )
  ingest-Tracked s (resolves other d m u) n t = go (get other s.escalation_index)
    where
      go : (found : Option ℕ) → Tracked token payload ts i (resolve_found s found other d m u)
      go none = append-Tracked s (orphan other d m u) t
      go (some j) = resolve_at-Tracked s j d m t
  ingest-Tracked s (pi agent_start u) n t = t
  ingest-Tracked s (pi (message_start none) u) n t = t
  ingest-Tracked s (pi (message_start (some m)) u) n t = t
  ingest-Tracked s (pi (message_update none) u) n t = t
  ingest-Tracked s (pi (message_update (some m)) u) n t = t
  ingest-Tracked s (pi (message_end none) u) n t = t
  ingest-Tracked s (pi (message_end (some m)) u) n t = append-Tracked s (message u m) t
  ingest-Tracked s (pi agent_ends u) n t = t
  ingest-Tracked s (pi agent_fails u) n t = t
  ingest-Tracked s (pi other_event u) n t = t

  ingest_all-Tracked :
      (s : Store) (es : List Event)
      → All (λ e. asks token e ≡ false) es
      → Tracked token payload ts i s
      → Tracked token payload ts i (ingest_all s es)
  unfolding ingest_all
  ingest_all-Tracked s [] n t = t
  ingest_all-Tracked s (e ∷ es) n t =
      ingest_all-Tracked (ingest s e) es n.1 (ingest-Tracked s e n.0 t)

  resolve-Tracked :
      (s : Store) (d : Decision) (m : Option String) (u : ℕ)
      → Tracked token payload ts i s
      → get_elem? (ingest s (resolves token d m u)).state.items i
        ≡ some (escalation ts (request_card token payload ts (resolved d m)))
  unfolding ingest
  resolve-Tracked s d m u (at, st, here) =
      rw (at, here) (get_elem?-set s.state.items i i _ _ here ∙ ground (arith, ==_self i))

-- A request puts its card at the end of the transcript; whatever events follow but another
-- request with the token, the resolution then gives that very card the decision and the message,
-- and leaves the card its place, its payload and its time.
pub request_then_resolve :
    (s : Store) (token payload ts : ℕ) (es : List Event) (d : Decision) (m : Option String) (u : ℕ)
    → All (λ e. asks token e ≡ false) es
    → get_elem?
        (ingest
          (ingest_all (ingest s (requested token payload ts)) es)
          (resolves token d m u)).state.items
        (length s.state.items)
      ≡ some (escalation ts (request_card token payload ts (resolved d m)))
request_then_resolve s token payload ts es d m u n =
    let i = length s.state.items in
    resolve-Tracked token payload ts i _ d m u
      (ingest_all-Tracked token payload ts i _ es n (start token payload ts i s refl))

-- A request's card stands pending at the end of the transcript.
pub request_shown :
    (s : Store) (token payload ts : ℕ)
    → get_elem? (ingest s (requested token payload ts)).state.items (length s.state.items)
      ≡ some (escalation ts (request_card token payload ts pending))
unfolding ingest
request_shown s token payload ts = get_elem?-end s.state.items _
