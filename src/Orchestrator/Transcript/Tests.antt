-- ===== src/Orchestrator/Transcript/Tests.antt =====
-- A transcript at a concrete stream of events.
use otacon.Prelude.{◌≡◌, refl, none, some, List, [], ◌∷◌, ◌++◌, length, get_elem?}
use otacon.Prelude.JsMap.{get, put}
use otacon.Orchestrator.Transcript.{
  Item, message, phone_action, system, escalation, resolved, approve, reject, Event, Store,
  empty_store, ingest, ingest_all, handle_pi_event, system_set, phone_acts, requested, resolves, pi,
  agent_start, message_start, message_end,
}
use otacon.Orchestrator.Transcript.Escalations.{request_card, request_then_resolve}
use otacon.Orchestrator.Transcript.Growth.{faces, ingest_all-Grown}

abbrev opening : List Event
opening = system_set 1 100 ∷ pi agent_start 101 ∷ pi (message_start (some 5)) 102 ∷ []

abbrev between : List Event
between =
    phone_acts 9 105
    ∷ requested 8 70 106
    ∷ resolves 8 reject (some "no") 107
    ∷ pi (message_end (some 5)) 108
    ∷ []

abbrev opened : Store
opened = ingest_all empty_store opening

request_then_resolve_example :
    get_elem?
      (ingest
        (ingest_all (ingest opened (requested 7 60 104)) between)
        (resolves 7 approve none 110)).state.items
      (length opened.state.items)
    ≡ some (escalation 104 (request_card 7 60 104 (resolved approve none)))
request_then_resolve_example =
    request_then_resolve opened 7 60 104 between approve none 110 (refl, (refl, (refl, (refl, tt))))

ingest_all-Grown_example :
    (more : List Item) × (faces (ingest_all opened between).state.items
      ≡ faces opened.state.items ++ more)
ingest_all-Grown_example = ingest_all-Grown opened between

whole_run :
    (ingest_all opened (resolves 6 reject none 103 ∷ between)).state.items
    ≡ system 100 1
      ∷ escalation 103
          (record { token = 6; payload = none; status = resolved reject none; ts = 103 })
      ∷ phone_action 105 9
      ∷ escalation 106 (request_card 8 70 106 (resolved reject (some "no")))
      ∷ message 108 5
      ∷ []
unfolding ingest_all ingest handle_pi_event get put
whole_run = refl
