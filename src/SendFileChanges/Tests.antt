-- ===== src/SendFileChanges/Tests.antt =====
-- Tests of the "send-file-changes" command: two changes are sent to a router that knows one handler, and the
-- connection fails to close.
use baamhackl.Base.{Option, some, ℕ, ◌≡◌, refl, none, inr, List, [], ◌∷◌, ◌^◌}
use baamhackl.Base.Int.{pos}
use baamhackl.FilePaths.{FilePath}
use baamhackl.Waryio.{FileInfo, Result}
use baamhackl.Watch.Router.{Router, new_router}
use baamhackl.Watchman.FileChange.{FileChange}
use baamhackl.SendFileChanges.{SendError, execute}
use baamhackl.SendFileChanges.Delivered.{router_service, ArePending, execute-ArePending}

abbrev lstat : FilePath → Result FileInfo
lstat p = inr (record { identity = 1; file_type = 2 ^ 31; perm = 493; size = 0; mod_time = 0 })

abbrev router : Router
router = new_router 2 ((104 ∷ [], 47 ∷ 119 ∷ []) ∷ [])

abbrev change : ℕ → FileChange
change name = record { name = name ∷ []; size = pos 5; mtime = 1000; cclock = [] }

abbrev changes : List FileChange
changes = change 97 ∷ change 98 ∷ change 97 ∷ []

abbrev sending : Router × Option SendError
sending =
    execute (router_service lstat 7 (λ path. none) (some 5)) (47 ∷ 115 ∷ []) (104 ∷ [])
      (inr (47 ∷ 119 ∷ [])) (inr changes) router

sent : sending.1 ≡ none
unfolding execute baamhackl.FilePaths.same_name baamhackl.SendFileChanges.connect_and_send
    baamhackl.SendFileChanges.send_all baamhackl.Watch.Router.file_changed
    baamhackl.FilePaths.is_abs baamhackl.Watch.Router.dispatched baamhackl.Watch.lookup new_router
    baamhackl.Watch.Router.add_handlers baamhackl.Watch.put baamhackl.Watch.handle
    baamhackl.Waryio.RelDir.same_stat baamhackl.Watch.handle_name baamhackl.Watch.new_handler
    baamhackl.Scheduler.add baamhackl.Scheduler.new baamhackl.FilePaths.clean
    baamhackl.FilePaths.clean_elems baamhackl.FilePaths.cons_first baamhackl.FilePaths.go_up
    baamhackl.FilePaths.join_text baamhackl.FilePaths.split baamhackl.PrioQueue.adapter_push
    baamhackl.PrioQueue.empty_queue baamhackl.PrioQueue.less_at baamhackl.PrioQueue.push
    baamhackl.PrioQueue.swap baamhackl.PrioQueue.up baamhackl.PrioQueue.up_loop
    baamhackl.Scheduler.apply_options baamhackl.Scheduler.enqueue baamhackl.Scheduler.less_by_order
    baamhackl.Scheduler.less_by_time baamhackl.Scheduler.next_sequence_number
    baamhackl.Waryio.same_file baamhackl.Watch.report_file_change
sent = refl

execute-ArePending_example :
    ArePending lstat 7 (λ path. none) (some 5) (104 ∷ []) (47 ∷ 119 ∷ []) changes sending
execute-ArePending_example =
    execute-ArePending lstat 7 (λ path. none) (some 5) (104 ∷ []) (47 ∷ 119 ∷ []) (47 ∷ 115 ∷ [])
      changes router sent
