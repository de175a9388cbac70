-- ===== src/Mapper/Cases.antt =====
-- The ends of `map_run`.
use patze_control.Base.{
  true, false, none, some, [], Bool-cases, Option-cases, ◌≡◌, ◌⊎◌, refl, inl, inr,
}
use patze_control.Telemetry.Timestamps.{Runtime}
use patze_control.Mapper.Types.{
  DetectedRun, MapperState, same_state, is_terminal_state, lookup, initial_from_state,
}
use patze_control.Mapper.Runs.{run_details, report_change, map_run}

abbrev pub MapRunCases : Runtime → DetectedRun → MapperState → Type 0
MapRunCases runtime run state =
    ((lookup run.run_id state.known_runs ≡ none)
      × (map_run runtime run state
          ≡ report_change runtime run (initial_from_state run.state) true state))
    ⊎ ((previous : DetectedRun) × (lookup run.run_id state.known_runs ≡ some previous)
        × (((same_state previous.state run.state ≡ true)
              × (map_run runtime run state ≡ run_details run state))
            ⊎ ((is_terminal_state previous.state ≡ true)
                × (map_run runtime run state ≡ (state, [])))
            ⊎ ((is_terminal_state previous.state ≡ false)
                × (map_run runtime run state
                    ≡ report_change runtime run previous.state false state))))

pub map_run_cases :
    (runtime : Runtime) (run : DetectedRun) (state : MapperState) → MapRunCases runtime run state
unfolding map_run
map_run_cases runtime run state = elim (Option-cases (lookup run.run_id state.known_runs)) [
  | inl new ↦ inl (new, rw (map_run, new) refl)
  | inr (previous, old) ↦ inr (
    previous,
    old,
    elim (Bool-cases (same_state previous.state run.state)) [
      | inl same ↦ inl (same, rw (map_run, old, same) refl)
      | inr other ↦ inr (elim (Bool-cases (is_terminal_state previous.state)) [
        | inl over ↦ inl (over, rw (map_run, old, other, over) refl)
        | inr going ↦ inr (going, rw (map_run, old, other, going) refl)
      ])
    ],
  )
]
