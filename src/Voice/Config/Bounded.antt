-- ===== src/Voice/Config/Bounded.antt =====
-- config.ts: numbers are kept between their bounds, and choices to what is listed.
use otacon.Prelude.{
  ℕ, ◌≡◌, refl, Option, none, some, List, [], arith, find, Among, find-Found, Found, inl, inr,
}
use otacon.Prelude.Int.{pos, negsuc}
use otacon.Prelude.Scan.{codes, same_text}
use otacon.Voice.Config.{
  Text, Json, thousandths, number, text, Fields, at_key, obj, num, units, one_of,
}
use otacon.Voice.Config.Lines.{LineConfig}
use otacon.Voice.Config.Valid.{unless_none}
use otacon.Voice.Config.Settings.{Contact, bad_thinking_level}
use otacon.Voice.Config.Parts.{
  delays, session_scopes, inbound_policies, tool_policies, consult_policies, Listening, is_level,
  thinking_problem, level_of,
}
use otacon.Voice.Config.Parse.{agent_context_of, realtime_of, menu_of, config_of}
use otacon.Voice.Config.Sound.{Between, IsLevel, IsBounded, IsListed}

num-Between :
    (v : Option Json) (def lo hi : ℕ) → Between lo hi def → Between lo hi (num v def lo hi)
unfolding num
num-Between (some (number (thousandths (pos n)))) def lo hi h = (omega arith, omega arith)
num-Between (some (number (thousandths (negsuc n)))) def lo hi h = (omega arith, omega arith)
num-Between v def lo hi h = h

one_of-Among :
    (v : Option Json) (allowed : List Text) (def : Text)
    → Among def allowed
    → Among (one_of v allowed def) allowed
unfolding one_of
one_of-Among (some (text s)) allowed def h =
    go (find (same_text s) allowed) (find-Found (same_text s) allowed)
  where
    go :
        (o : Option Text)
        → Found (same_text s) allowed o
        → Among (elim o [ none ↦ def | some a ↦ a ]) allowed
    go none f = h
    go (some a) f = f.0
one_of-Among v allowed def h = h

pub config_of-IsBounded :
    (c : Fields) (lines : List LineConfig) (l : Listening) (ns : List Text) (ps : List Contact)
    → IsBounded (config_of c lines l ns ps)
unfolding config_of realtime_of agent_context_of menu_of
config_of-IsBounded c lines l ns ps =
    let realtime = obj (at_key (codes "realtime") c) in
    let context = obj (at_key (codes "agentContext") realtime) in
    let recent = obj (at_key (codes "recentContext") realtime) in
    let menu = obj (at_key (codes "menu") c) in
    record {
      recent = omega (
        arith,
        num-Between (at_key (codes "consultRecentMessages") c) (units 8) (units 0) (units 30)
            (omega arith, omega arith),
      );
      response =
          num-Between (at_key (codes "responseTimeoutMs") c) (units 60_000) (units 5_000)
            (units 600_000) (omega arith, omega arith);
      context = omega (
        arith,
        num-Between (at_key (codes "maxChars") context) (units 6_000) (units 0) (units 50_000)
            (omega arith, omega arith),
      );
      messages =
          let h =
            num-Between (at_key (codes "maxMessages") recent) (units 8) (units 1) (units 30)
              (omega arith, omega arith) in
          (omega (arith, h), omega (arith, h));
      check_every =
          num-Between (at_key (codes "checkEverySeconds") menu) (units 3) (units 1) (units 30)
            (omega arith, omega arith);
      threshold =
          num-Between (at_key (codes "threshold") menu) 600 500 1_000 (omega arith, omega arith);
      hold_cap =
          num-Between (at_key (codes "holdCapSeconds") c) (units 300) (units 10) (units 3_600)
            (omega arith, omega arith);
      max_call =
          num-Between (at_key (codes "maxCallSeconds") c) (units 1_800) (units 60) (units 14_400)
            (omega arith, omega arith);
      ring_timeout =
          num-Between (at_key (codes "ringTimeoutSeconds") c) (units 45) (units 10) (units 120)
            (omega arith, omega arith);
    }

thinking_none : (v : Option Json) → thinking_problem v ≡ [] → IsLevel (level_of v)
unfolding thinking_problem
thinking_none (some (text s)) h = unless_none (is_level (text s)) bad_thinking_level h
thinking_none v h = tt

pub config_of-IsListed :
    (c : Fields) (lines : List LineConfig) (l : Listening) (ns : List Text) (ps : List Contact)
    → thinking_problem (at_key (codes "consultThinkingLevel") c) ≡ []
    → IsListed (config_of c lines l ns ps)
unfolding config_of menu_of
config_of-IsListed c lines l ns ps h =
    let menu = obj (at_key (codes "menu") c) in
    record {
      scope =
          one_of-Among (at_key (codes "sessionScope") c) session_scopes (codes "per-phone")
            (inl refl);
      inbound =
          one_of-Among (at_key (codes "inboundPolicy") c) inbound_policies (codes "disabled")
            (inl refl);
      tools =
          one_of-Among (at_key (codes "toolPolicy") c) tool_policies (codes "safe-read-only")
            (inl refl);
      consult =
          one_of-Among (at_key (codes "consultPolicy") c) consult_policies (codes "auto")
            (inl refl);
      delay =
          one_of-Among (at_key (codes "delay") (obj (at_key (codes "transcription") menu))) delays
            (codes "medium") (inr (inr (inl refl)));
      level = thinking_none (at_key (codes "consultThinkingLevel") c) h;
    }
