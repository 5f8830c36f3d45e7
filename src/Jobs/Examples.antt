-- ===== src/Jobs/Examples.antt =====
-- The table of commands with one job.
use local_mcp.Common.{
  ◌-◌, ◌<◌, ◌≡◌, ◌≢◌, ◌⊎◌, ◌↔◌, some-inj, refl, true, false, none, some, List, [], ◌∷◌, ◌++◌, arith,
}
use local_mcp.Common.Str.{Str, bytes}
use local_mcp.Common.Int.{pos, negsuc}
use local_mcp.Common.Decimal.{decimal, decimal_int, digits}
use local_mcp.Common.Utf8.{from_utf8_lossy}
use local_mcp.Common.Result.{ok, err}
use local_mcp.FilePath.{root_dir}
use local_mcp.Root.{Root}
use local_mcp.Jobs.{
  running, exited, signalled, status_text, Jobs, JobState, new, cell_at, is_kept, retain, reap,
  lookup, insert, get, fresh_state, enter, start, wait, stop_target, stop, subscribe, on_cell,
  update_cell, pump_chunk, record_exit, stamp, announce, announced, waiting, no_such_job,
  already_finished,
}
use local_mcp.Jobs.Events.{
  Event, starts, reads, exits, stamps, announces, subscribes, on_exit, on_stamp, on_announce, step,
  run,
}
use local_mcp.Jobs.Reachable.{Inv, run-Inv, run-new}
use local_mcp.Jobs.Progress.{Evolves}
use local_mcp.Jobs.Lasting.{Spares}
use local_mcp.Jobs.Calls.{get-run, get-reap}
use local_mcp.Jobs.Stop.{Stoppable, stop_target_iff}
use local_mcp.Jobs.Effect.{Missed}
use local_mcp.Jobs.Wait.{wait_lem}

abbrev root : Root
root = record { path = root_dir ∷ [] }

-- A job that is started, and what happens to it.
abbrev begins : List Event
begins = starts 5 (ok (some 42)) 7 root (bytes "make") 4 ∷ []

abbrev ends : List Event
ends =
    subscribes 0
    ∷ reads 0 (bytes "abcdef")
    ∷ exits 0 (ok (some (pos 2)))
    ∷ stamps 0 20
    ∷ announces 0
    ∷ []

abbrev begun : Jobs
begun = run begins (new 100)

abbrev ended : Jobs
ended = run ends begun

abbrev fresh : JobState
fresh = record {
  command = bytes "make";
  output = record { value = []; poisoned = false };
  status = record { value = running; poisoned = false };
  done = false;
  receivers = 0;
  finished_at = record { value = none; poisoned = false };
  pid = some 42;
  limit = 4;
  waiter = waiting;
}

abbrev final : JobState
final = record fresh {
  output = record { value = bytes "abcd"; poisoned = false };
  status = record { value = exited (pos 2); poisoned = false };
  done = true;
  receivers = 1;
  finished_at = record { value = some 20; poisoned = false };
  waiter = announced;
}

run-new_example : Inv begun
run-new_example = run-new begins 100

ended-Inv : Inv ended
ended-Inv = run-Inv ends begun run-new_example

named : get 7 begun ≡ ok (0, fresh)
unfolding run step new start reap retain enter insert fresh_state get lookup cell_at
named = refl

cell : cell_at 0 begun.cells ≡ some fresh
unfolding run step new start reap retain enter insert fresh_state get lookup cell_at
cell = refl

final_cell : cell_at 0 ended.cells ≡ some final
unfolding run step new start reap retain enter insert fresh_state get lookup cell_at update_cell
    on_exit on_stamp on_announce record_exit stamp announce subscribe pump_chunk
final_cell = refl

retention_is : begun.retention ≡ 100
unfolding run step new start reap retain enter
retention_is = refl

-- Behind its end another command is started.
abbrev another : List Event
another = ends ++ starts 110 (ok none) 9 root (bytes "ls") 4 ∷ []

another_cell : cell_at 0 (run another begun).cells ≡ some final
unfolding run step new start reap retain enter insert fresh_state get lookup cell_at update_cell
    on_exit on_stamp on_announce record_exit stamp announce subscribe pump_chunk
another_cell = refl

spares : Spares 7 begun.retention (some 20) (starts 110 (ok none) 9 root (bytes "ls") 4)
unfolding run step new start reap retain enter
spares = (λ e. omega (arith, e), λ t e. let same : 20 ≡ t = some-inj 20 t e in omega (arith, same))

get-run_example : (get 7 (run another begun) ≡ ok (0, final)) × Evolves fresh final
get-run_example =
    get-run another begun 7 0 fresh final run-new_example named another_cell
      (tt, (tt, (tt, (tt, (tt, (spares, tt))))))

-- The reaping 99 ns after the end keeps the job, the one 100 ns after it does not.
kept : get 7 (reap 119 ended) ≡ ok (0, final)
unfolding run step new start reap retain enter insert fresh_state get lookup cell_at update_cell
    on_exit on_stamp on_announce record_exit stamp announce subscribe pump_chunk is_kept
kept = refl

forgotten : get 7 (reap 120 ended) ≡ err (no_such_job 7 0)
unfolding run step new start reap retain enter insert fresh_state get lookup cell_at update_cell
    on_exit on_stamp on_announce record_exit stamp announce subscribe pump_chunk is_kept
forgotten = refl

get-reap_example : 119 - 20 < ended.retention
get-reap_example = get-reap 119 ended 7 0 final 20 ended-Inv kept refl

-- Behind the first command a second is started, and both go on.
abbrev after : Jobs
after = (start 21 (λ directory text. ok (some 43)) 8 root (bytes "ls") 4 ended).1

abbrev mixed : List Event
mixed =
    reads 1 (bytes "ab")
    ∷ reads 0 (bytes "x")
    ∷ reads 1 (bytes "cdef")
    ∷ starts 30 (ok none) 9 root [] 4
    ∷ []

abbrev filled : JobState
filled = record (record fresh { command = bytes "ls"; pid = some 43 }) {
  output = record { value = bytes "abcd"; poisoned = false };
}

stoppable : Stoppable 7 begun (negsuc 41)
stoppable = record {
  place = 0;
  job = fresh;
  named = named;
  unended = refl;
  process = 42;
  has_process = refl;
  its_group = refl;
}

stops : stop_target 7 begun ≡ ok (negsuc 41)
stops = (stop_target_iff 7 begun (negsuc 41) run-new_example).1 stoppable

stopped_late : stop (λ g. true) 7 ended ≡ err (already_finished 7)
unfolding run step new start reap retain enter insert fresh_state get lookup cell_at update_cell
    on_exit on_stamp on_announce record_exit stamp announce subscribe pump_chunk stop stop_target
stopped_late = refl

stop_target_iff_example : (stop_target 7 begun ≡ ok (negsuc 41)) ↔ Stoppable 7 begun (negsuc 41)
stop_target_iff_example = stop_target_iff 7 begun (negsuc 41) run-new_example

-- The job is waited for from its start to its end.
abbrev heard : List Event
heard = exits 0 (ok none) ∷ stamps 0 30 ∷ announces 0 ∷ []

abbrev over : JobState
over = record fresh {
  status = record { value = signalled; poisoned = false };
  done = true;
  receivers = 1;
  finished_at = record { value = some 30; poisoned = false };
  waiter = announced;
}

over_cell : cell_at 0 (run heard (on_cell 0 subscribe begun)).cells ≡ some over
unfolding run step new start reap retain enter insert fresh_state get lookup cell_at update_cell
    on_exit on_stamp on_announce record_exit stamp announce subscribe pump_chunk
over_cell = refl

wait_lem_example :
    (¬ (Missed fresh)
      × (over.waiter ≡ announced)
      × (over.status.value ≢ running)
      × ((more : Str) × ((wait 7 (run heard) (run (reads 0 (bytes "x") ∷ [])) begun).0
            ≡ ok (
                some (record {
                  status = over.status.value;
                  output = from_utf8_lossy (over.output.value ++ more);
                })))))
    ⊎ ((Missed fresh ⊎ (over.waiter ≢ announced))
        × ((wait 7 (run heard) (run (reads 0 (bytes "x") ∷ [])) begun).0 ≡ ok none))
wait_lem_example =
    wait_lem 7 begun 0 fresh heard (reads 0 (bytes "x") ∷ []) run-new_example named over over_cell
      (tt, (tt, (tt, tt)))

said : status_text (exited (negsuc 1)) ≡ bytes "exited with code -2"
unfolding status_text decimal_int decimal digits
said = refl
