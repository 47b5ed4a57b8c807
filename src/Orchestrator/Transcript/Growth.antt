-- ===== src/Orchestrator/Transcript/Growth.antt =====
-- How the transcript's list of items changes.
use mathlib.Core.List.{append-nil, append_assoc}
use otacon.Prelude.{
  ℕ, String, zero, suc, ◌≡◌, refl, ap, sym, ◌∙◌, Option, none, some, List, [], ◌∷◌, ◌++◌, arith,
  get_elem?, set, map,
}
use otacon.Prelude.JsMap.{get}
use otacon.Orchestrator.Transcript.{
  Item, message, phone_action, system, user_text, escalation, pending, Store, Event, ingest,
  ingest_all, handle_pi_event, agent_start, message_start, message_update, message_end, agent_ends,
  agent_fails, other_event, system_set, user_message, phone_acts, requested, resolves, pi, Decision,
  resolve_at, resolve_found, orphan,
}

-- An item without what a resolution may change: the status of its card.
abbrev pub face : Item → Item
face (escalation ts c) = escalation ts (record c { status = pending })
face item = item

abbrev pub faces : List Item → List Item
faces = map face

pub faces-append : (xs ys : List Item) → faces (xs ++ ys) ≡ faces xs ++ faces ys
faces-append [] ys = refl
faces-append (x ∷ xs) ys = ap (◌∷◌ (face x)) (faces-append xs ys)

faces-set :
    (xs : List Item) (i : ℕ) (x y : Item)
    → get_elem? xs i ≡ some x
    → face y ≡ face x
    → faces (set xs i y) ≡ faces xs
faces-set [] i x y e f = refl
faces-set (z ∷ xs) zero x y e f = ground (arith, e, f)
faces-set (z ∷ xs) (suc i) x y e f = ap (◌∷◌ (face z)) (faces-set xs i x y e f)

-- Every item stays, in its place, and new ones come after.
abbrev pub Grown : List Item → List Item → Type 0
Grown xs ys = (more : List Item) × (faces ys ≡ faces xs ++ more)

kept : (xs ys : List Item) → faces ys ≡ faces xs → Grown xs ys
kept xs ys e = ([], e ∙ sym (append-nil (faces xs)))

append-Grown : (xs : List Item) (x : Item) → Grown xs (xs ++ x ∷ [])
append-Grown xs x = (face x ∷ [], faces-append xs (x ∷ []))

same : (xs : List Item) → Grown xs xs
same xs = kept xs xs refl

resolve_at-Grown :
    (s : Store) (i : ℕ) (d : Decision) (m : Option String)
    → Grown s.state.items (resolve_at s i (get_elem? s.state.items i) d m).state.items
resolve_at-Grown s i d m = go (get_elem? s.state.items i) refl
  where
    go :
        (x : Option Item)
        → get_elem? s.state.items i ≡ x
        → Grown s.state.items (resolve_at s i x d m).state.items
    go none e = same s.state.items
    go (some (message ts x)) e = same s.state.items
    go (some (phone_action ts x)) e = same s.state.items
    go (some (system ts x)) e = same s.state.items
    go (some (user_text ts x)) e = same s.state.items
    go (some (escalation ts c)) e =
        kept s.state.items _ (faces-set s.state.items i (escalation ts c) _ e refl)

resolve_found-Grown :
    (s : Store) (found : Option ℕ) (token : ℕ) (d : Decision) (m : Option String) (ts : ℕ)
    → Grown s.state.items (resolve_found s found token d m ts).state.items
resolve_found-Grown s none token d m ts = append-Grown s.state.items (orphan token d m ts)
resolve_found-Grown s (some i) token d m ts = resolve_at-Grown s i d m

ingest-Grown : (s : Store) (e : Event) → Grown s.state.items (ingest s e).state.items
unfolding ingest handle_pi_event
ingest-Grown s (system_set prompt ts) = append-Grown s.state.items (system ts prompt)
ingest-Grown s (user_message text ts) = same s.state.items
ingest-Grown s (phone_acts payload ts) = append-Grown s.state.items (phone_action ts payload)
ingest-Grown s (requested token payload ts) = append-Grown s.state.items _
ingest-Grown s (resolves token d m ts) =
    resolve_found-Grown s (get token s.escalation_index) token d m ts
ingest-Grown s (pi agent_start ts) = same s.state.items
ingest-Grown s (pi (message_start none) ts) = same s.state.items
ingest-Grown s (pi (message_start (some m)) ts) = same s.state.items
ingest-Grown s (pi (message_update none) ts) = same s.state.items
ingest-Grown s (pi (message_update (some m)) ts) = same s.state.items
ingest-Grown s (pi (message_end none) ts) = same s.state.items
ingest-Grown s (pi (message_end (some m)) ts) = append-Grown s.state.items (message ts m)
ingest-Grown s (pi agent_ends ts) = same s.state.items
ingest-Grown s (pi agent_fails ts) = same s.state.items
ingest-Grown s (pi other_event ts) = same s.state.items

-- Whatever events follow, the items that a transcript shows stay in their places, each with all
-- that it showed but for the status of a card, and new items come only after them.
pub ingest_all-Grown :
    (s : Store) (es : List Event)
    → (more : List Item) × (faces (ingest_all s es).state.items ≡ faces s.state.items ++ more)
unfolding ingest_all
ingest_all-Grown s [] = same s.state.items
ingest_all-Grown s (e ∷ es) =
    let (first, p) = ingest-Grown s e in
    let (rest, q) = ingest_all-Grown (ingest s e) es in
    (first ++ rest, q ∙ ap (λ l. l ++ rest) p ∙ append_assoc (faces s.state.items) first rest)
