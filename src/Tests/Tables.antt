-- ===== src/Tests/Tables.antt =====
-- The lookup tables, the queue, the masks and the demultiplexer at concrete inputs.
use ipcinfra.Prelude.{
  ℕ, ◌+◌, ◌≡◌, ◌≢◌, refl, Bool, true, false, none, some, List, [], ◌∷◌, map, ltb, if◌then◌else◌,
}
use ipcinfra.Prelude.Int.{ℤ, pos}
use ipcinfra.Prelude.Classes.{nat_eq, int_eq, int_ord}
use ipcinfra.Prelude.Run.{ok, Returns}
use ipcinfra.Guarded
use ipcinfra.Guarded.{Guarded}
use ipcinfra.Guarded.Laws.{IsStuck, copy_assign-IsStuck}
use ipcinfra.SharedQueue.{SharedQueue}
use ipcinfra.SharedQueue.Fifo.{
  Action, act, NextTest, Shared, pushes, tries, waits, wakes, acts, calls-Conserves, Conserves,
  all_pushed, all_waits,
}
use ipcinfra.LookupTable.Hash.{find}
use ipcinfra.LookupTable.Hash.Laws.{contains, IsUnique}
use ipcinfra.LookupTable.Sorted
use ipcinfra.LookupTable.Sorted.{get_value_position_for}
use ipcinfra.LookupTable.Sorted.Laws
use ipcinfra.LookupTable.Sorted.Laws.{add_or_update_mapping-IsSorted}
use ipcinfra.Events.{HandleEvent, null_event, in_event, err_event, event_eq}
use ipcinfra.Events.Mask.{
  get_events_from_mask, get_events_mask, get_events_from_mask-get_events_mask, monitored,
}
use ipcinfra.Demux.{Demux, Epoll, register_impl, unregister_impl}
use ipcinfra.Demux.Laws.{
  Registers, register_impl-Registers, Unregisters, unregister_impl-Unregisters,
}
use ipcinfra.Demux.Monitor.{EventQueue, ready, timed_out, monitor_wait_thread}
use ipcinfra.Demux.Rounds.{Monitors, monitor_wait_thread-Monitors}

abbrev table : List (ℕ × ℕ)
table = (3, 30) ∷ (8, 80) ∷ []

table-IsUnique : IsUnique table
unfolding find
table-IsUnique = (refl, (refl, tt))

abbrev wanted : List ℕ
wanted = 8 ∷ 9 ∷ []

abbrev over_fifty : ℕ × ℕ → Bool
over_fifty entry = ltb 50 entry.1

abbrev pub handles : List (ℤ × ℕ)
handles = (pos 4, 4) ∷ (pos 7, 7) ∷ []

pub handles-IsSorted : Laws.IsSorted handles
handles-IsSorted = ((refl, tt), (tt, tt))

add_or_update_mapping-IsSorted_example :
    Laws.Adds (pos 5) 5 handles (Sorted.add_or_update_mapping (pos 5) 5 handles)
add_or_update_mapping-IsSorted_example =
    add_or_update_mapping-IsSorted (pos 5) 5 handles handles-IsSorted

at_seven : get_value_position_for (pos 7) handles ≡ some 7
unfolding get_value_position_for
at_seven = refl

at_nine : get_value_position_for (pos 9) handles ≡ none
unfolding get_value_position_for
at_nine = refl

handles_nonempty : handles ≢ []
handles_nonempty e = cc

abbrev full : SharedQueue ℕ
full = record { contents = 1 ∷ []; held = false }

abbrev vacant : SharedQueue ℕ
vacant = record { contents = []; held = false }

abbrev shared : Shared ℕ
shared = record { queue = vacant; waiting = 0; returned = 0 }

abbrev actions : List (Action ℕ)
actions = waits ∷ tries ∷ waits ∷ pushes 2 ∷ pushes 3 ∷ wakes ∷ []

calls-Conserves_example :
    Returns
      (λ out.
        Conserves shared (all_pushed actions) (all_waits actions) out
        × NextTest out.1 (act out.1 wakes))
      (acts shared actions)
calls-Conserves_example = calls-Conserves shared actions refl

abbrev assigned : Guarded (List ℕ) × Guarded (List ℕ)
assigned = (record { contents = 1 ∷ []; held = true }, record { contents = 1 ∷ []; held = true })

vacant_takes_full : Guarded.copy_assign vacant full ≡ ok assigned
unfolding Guarded.copy_assign
vacant_takes_full = refl

copy_assign-IsStuck_example :
    (assigned.0.contents ≡ full.contents) × IsStuck assigned.0 × IsStuck assigned.1
copy_assign-IsStuck_example = copy_assign-IsStuck vacant full {r = assigned} vacant_takes_full

abbrev emptied : List ℕ → List ℕ
emptied items = []

abbrev moved : Guarded (List ℕ) × Guarded (List ℕ)
moved = (record { contents = 1 ∷ []; held = true }, record { contents = []; held = true })

vacant_moves_full : Guarded.move_assign emptied vacant full ≡ ok moved
unfolding Guarded.move_assign
vacant_moves_full = refl

abbrev asked : List HandleEvent
asked = err_event ∷ in_event ∷ null_event ∷ []

get_events_from_mask-get_events_mask_example :
    get_events_from_mask (get_events_mask asked)
    ≡ map (λ event. if contains asked event then event else null_event) monitored
get_events_from_mask-get_events_mask_example = get_events_from_mask-get_events_mask asked

abbrev pub accepting : Epoll ℕ
accepting = record {
  ctl_add = λ handle events payload calls. (pos 0, calls + 1);
  ctl_mod = λ handle events payload calls. (pos 0, calls + 1);
  ctl_del = λ handle calls. (pos 0, calls + 1);
}

abbrev demux : Demux ℕ
demux = record {
  kernel = 2;
  wait_timeout_ms = 5000;
  monitoring_ended = false;
  handle_id_map = handles;
}

register_impl-Registers_example :
    Registers accepting (pos 5) 5 1 demux (register_impl accepting (pos 5) 5 1 demux)
register_impl-Registers_example =
    register_impl-Registers accepting (pos 5) 5 1 demux handles-IsSorted

unregister_impl-Unregisters_example :
    Returns (Unregisters accepting (pos 7) demux) (unregister_impl accepting (pos 7) demux)
unregister_impl-Unregisters_example =
    unregister_impl-Unregisters accepting (pos 7) demux {id = 7} handles-IsSorted at_seven

abbrev events : EventQueue
events = record { contents = []; held = false }

monitor_wait_thread-Monitors_example :
    Returns
      (Monitors ((true, ready ((pos 7, 0x11) ∷ [])) ∷ (true, timed_out) ∷ []) events)
      (monitor_wait_thread ((true, ready ((pos 7, 0x11) ∷ [])) ∷ (true, timed_out) ∷ []) events)
monitor_wait_thread-Monitors_example =
    monitor_wait_thread-Monitors ((true, ready ((pos 7, 0x11) ∷ [])) ∷ (true, timed_out) ∷ [])
      events refl
