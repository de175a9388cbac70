-- ===== src/Mapper/Keys.antt =====
-- Tool calls, logs and model usage are reported once.
use mathlib.Core.List.{append_assoc, append-nil}
use patze_control.Base.{
  false, Option, none, some, String, ◌==◌, eq_iff, List, [], ◌∷◌, ◌++◌, Bool-cases, Option-cases,
  ◌≡◌, refl, sym, ap, ◌∙◌, inl, inr, arith,
}
use patze_control.Mapper.Types.{
  DetectedToolCall, DetectedLogEntry, DetectedRun, MappedEvent, tool_started, tool_completed,
  log_emitted, model_used, has_key,
}
use patze_control.Mapper.Runs.{
  tool_key, log_key, tool_event, log_event, to_run_tool_events, to_run_log_events,
  to_run_model_usage_event,
}

-- The key of what an event reports, if it is of the kind.
abbrev pub tool_reported : MappedEvent → Option String
tool_reported event = elim event.payload [
  | tool_started run call ↦ some (tool_key run call)
  | tool_completed run call ↦ some (tool_key run call)
  | _ ↦ none
]

abbrev pub log_reported : MappedEvent → Option String
log_reported event = elim event.payload [ log_emitted run log ↦ some (log_key run log) | _ ↦ none ]

abbrev pub usage_reported : MappedEvent → Option String
usage_reported event = elim event.payload [ model_used run usage ↦ some run.run_id | _ ↦ none ]

abbrev cons_some : Option String → List String → List String
cons_some none ks = ks
cons_some (some k) ks = k ∷ ks

-- The keys that the events report, in their order.
abbrev pub reported : (MappedEvent → Option String) → List MappedEvent → List String
reported key [] = []
reported key (e ∷ es) = cons_some (key e) (reported key es)

abbrev pub AllDifferent : List String → Type 0
AllDifferent [] = Unit
AllDifferent (k ∷ ks) = (has_key k ks ≡ false) × AllDifferent ks

cons_some-append :
    (o : Option String) (ks js : List String) → cons_some o (ks ++ js) ≡ cons_some o ks ++ js
cons_some-append none ks js = refl
cons_some-append (some k) ks js = refl

pub reported-append :
    (key : MappedEvent → Option String) (es fs : List MappedEvent)
    → reported key (es ++ fs) ≡ reported key es ++ reported key fs
reported-append key [] fs = refl
reported-append key (e ∷ es) fs =
    ap (cons_some (key e)) (reported-append key es fs) ∙ cons_some-append (key e) _ _

reported-skip :
    (key : MappedEvent → Option String) (e : MappedEvent) (es : List MappedEvent)
    → key e ≡ none
    → reported key es ≡ []
    → reported key (e ∷ es) ≡ []
reported-skip key e es none_here rest = ap (λ o. cons_some o (reported key es)) none_here ∙ rest

has_key-last :
    (j k : String) (ks : List String)
    → has_key j ks ≡ false
    → (k == j) ≡ false
    → has_key j (ks ++ (k ∷ [])) ≡ false
unfolding has_key
has_key-last j k [] h d = ground arith
has_key-last j k (i ∷ is) h d = ground (arith, has_key-last j k is)

AllDifferent-append :
    (ks : List String) (k : String)
    → AllDifferent ks
    → has_key k ks ≡ false
    → AllDifferent (ks ++ (k ∷ []))
unfolding has_key
AllDifferent-append [] k d new = (refl, tt)
AllDifferent-append (j ∷ js) k (d, ds) new =
    let other : (k == j) ≡ false = ground (arith, eq_iff j k, eq_iff k j) in
    let absent : has_key k js ≡ false = ground arith in
    (has_key-last j k js d other, AllDifferent-append js k ds absent)

-- The set `after` has grown from `before` by the keys that the events report, all of them new.
pub record Grows (key : MappedEvent → Option String) (before : List String)
    (out : List String × List MappedEvent) : Type 0 where
  pub grown : out.0 ≡ before ++ reported key out.1
  pub different : AllDifferent before → AllDifferent out.0

pub Grows-none :
    (key : MappedEvent → Option String) (before : List String) (events : List MappedEvent)
    → reported key events ≡ []
    → Grows key before (before, events)
Grows-none key before events e = record {
  grown = sym (append-nil before) ∙ ap (λ l. before ++ l) (sym e);
  different = λ d. d;
}

pub Grows-trans :
    (key : MappedEvent → Option String) (a b c : List String) (es fs : List MappedEvent)
    → Grows key a (b, es)
    → Grows key b (c, fs)
    → Grows key a (c, es ++ fs)
Grows-trans key a b c es fs p q = record {
  grown =
      q.grown
      ∙ ap (λ l. l ++ reported key fs) p.grown
      ∙ append_assoc a (reported key es) (reported key fs)
      ∙ ap (λ l. a ++ l) (sym (reported-append key es fs));
  different = λ d. q.different (p.different d);
}

Grows-one :
    (key : MappedEvent → Option String) (before : List String) (event : MappedEvent) (k : String)
    → key event ≡ some k
    → has_key k before ≡ false
    → Grows key before (before ++ (k ∷ []), event ∷ [])
Grows-one key before event k e new = record {
  grown = ap (λ o. before ++ cons_some o []) (sym e);
  different = λ d. AllDifferent-append before k d new;
}

tool_event-reported :
    (run : DetectedRun) (call : DetectedToolCall)
    → (tool_reported (tool_event run call) ≡ some (tool_key run call))
      × (log_reported (tool_event run call) ≡ none)
      × (usage_reported (tool_event run call) ≡ none)
tool_event-reported run call = ground arith

pub tools-Grows :
    (run : DetectedRun) (calls : List DetectedToolCall) (emitted : List String)
    → let out = to_run_tool_events run calls emitted in
      Grows tool_reported emitted out
      × (reported log_reported out.1 ≡ [])
      × (reported usage_reported out.1 ≡ [])
unfolding to_run_tool_events
tools-Grows run [] emitted = (Grows-none tool_reported emitted [] refl, refl, refl)
tools-Grows run (call ∷ calls) emitted =
    let (as_tool, as_log, as_usage) = tool_event-reported run call in
    elim (Bool-cases (has_key (tool_key run call) emitted)) [
      | inl old ↦ rw (to_run_tool_events, old) (tools-Grows run calls emitted)
      | inr new ↦
          let told = to_run_tool_events run calls (emitted ++ (tool_key run call ∷ [])) in
          let (grows, logs, usages) = tools-Grows run calls (emitted ++ (tool_key run call ∷ [])) in
          rw (to_run_tool_events, new)
            (
              Grows-trans tool_reported emitted (emitted ++ (tool_key run call ∷ [])) _ _ _
                  (Grows-one tool_reported emitted (tool_event run call) (tool_key run call) as_tool
                    new)
                  grows,
              reported-skip log_reported (tool_event run call) told.1 as_log logs,
              reported-skip usage_reported (tool_event run call) told.1 as_usage usages,
            )
    ]

pub logs-Grows :
    (run : DetectedRun) (logs : List DetectedLogEntry) (emitted : List String)
    → let out = to_run_log_events run logs emitted in
      Grows log_reported emitted out
      × (reported tool_reported out.1 ≡ [])
      × (reported usage_reported out.1 ≡ [])
unfolding to_run_log_events
logs-Grows run [] emitted = (Grows-none log_reported emitted [] refl, refl, refl)
logs-Grows run (log ∷ logs) emitted = elim (Bool-cases (has_key (log_key run log) emitted)) [
  | inl old ↦ rw (to_run_log_events, old) (logs-Grows run logs emitted)
  | inr new ↦
      let (grows, tools, usages) = logs-Grows run logs (emitted ++ (log_key run log ∷ [])) in
      rw (to_run_log_events, new)
        (
          Grows-trans log_reported emitted (emitted ++ (log_key run log ∷ [])) _ _ _
              (Grows-one log_reported emitted (log_event run log) (log_key run log) refl new) grows,
          tools,
          usages,
        )
]

pub usage-Grows :
    (run : DetectedRun) (emitted : List String)
    → let out = to_run_model_usage_event run emitted in
      Grows usage_reported emitted out
      × (reported tool_reported out.1 ≡ [])
      × (reported log_reported out.1 ≡ [])
unfolding to_run_model_usage_event
usage-Grows run emitted = elim (Option-cases run.model_usage) [
  | inl nothing ↦
      rw (to_run_model_usage_event, nothing) (Grows-none usage_reported emitted [] refl, refl, refl)
  | inr (usage, e) ↦ elim (Bool-cases (has_key run.run_id emitted)) [
    | inl old ↦
        rw (to_run_model_usage_event, e, old)
          (Grows-none usage_reported emitted [] refl, refl, refl)
    | inr new ↦
        rw (to_run_model_usage_event, e, new)
          (Grows-one usage_reported emitted _ run.run_id refl new, refl, refl)
  ]
]
