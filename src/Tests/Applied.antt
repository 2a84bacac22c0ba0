-- ===== src/Tests/Applied.antt =====
-- Each theorem at a concrete input.
use sandcube.Prelude.{◌≡◌, refl, true, false, none, [], ◌∷◌, ◌++◌, length, take, ltb}
use sandcube.Exec.{OnOk, succeeded}
use sandcube.Paths.{bytes}
use sandcube.Calls.{Call, any_call, done, fresh, is_destructive, Follows}
use sandcube.Logs.Buffer.{write, result, empty, capacity}
use sandcube.Logs.Buffer.Laws.{write_all, write_all-result, lengths, joined}
use sandcube.Logs.Capture.{
  chunk, final, ended, log_limit, capture_log, drain_on_error, copy_log, copy_chunks, store_chunk,
  note_overflow, keep_bytes, finish,
}
use sandcube.Logs.Capture.Laws.{feed_end, feed_bytes, capture_log_lem}
use sandcube.Logs.Capture.Bounds.{capture_log-input}
use sandcube.Runtime.Create.{create}
use sandcube.Runtime.Create.Laws.{create_order}
use sandcube.Runtime.Lifecycle.{stop, delete}
use sandcube.Runtime.Lifecycle.Laws.{stop_retains, delete_order}
use sandcube.Network.Setup.{setup_network}
use sandcube.Network.Setup.Laws.{setup_network_order}
use sandcube.Server.Handler.{Request, method_post}
use sandcube.Server.Serve.{serve}
use sandcube.Server.Serve.Guard.{is_guarded, holder}
use sandcube.Server.Serve.Laws.{serve_guards}
use sandcube.Tests.Samples.{
  log_file, log_file-IsFile, present, absent, services, config, network_host, json, runtime,
}

stop_retains_example :
    let (r, s) = stop present services "sbx_a" (fresh 0) in
    (any_call is_destructive s.calls ≡ false)
    × OnOk (λ _. done Call.remove_network s.calls ≡ true) r
stop_retains_example = stop_retains present services "sbx_a" 0

delete_order_example :
    let (r, s) = delete present services "sbx_a" (fresh 0) in
    Follows Call.delete_container Call.remove_network s.calls
    × Follows Call.forget_processes Call.remove_network s.calls
    × Follows Call.forget_processes Call.reclaim_quota s.calls
    × OnOk (λ _. done Call.forget_processes s.calls ≡ true) r
delete_order_example = delete_order present services "sbx_a" 0

create_order_example :
    let calls = (create absent services (λ c. c.image) config (fresh 0)).1.calls in
    Follows Call.new_snapshot Call.reclaim_quota calls
    × Follows Call.commit_container Call.prepare_quota calls
create_order_example = create_order absent services (λ c. c.image) config 0

write_all-result_example :
    ((write_all write empty ((1 ∷ 2 ∷ []) ∷ [] ∷ (3 ∷ []) ∷ [])).1
      ≡ lengths ((1 ∷ 2 ∷ []) ∷ [] ∷ (3 ∷ []) ∷ []))
    × (result (write_all write empty ((1 ∷ 2 ∷ []) ∷ [] ∷ (3 ∷ []) ∷ [])).0 ≡ (
      take capacity (joined ((1 ∷ 2 ∷ []) ∷ [] ∷ (3 ∷ []) ∷ [])),
      ltb capacity (length (joined ((1 ∷ 2 ∷ []) ∷ [] ∷ (3 ∷ []) ∷ []))),
    ))
write_all-result_example = write_all-result ((1 ∷ 2 ∷ []) ∷ [] ∷ (3 ∷ []) ∷ [])

capture_succeeds :
    succeeded (capture_log log_file (chunk (1 ∷ 2 ∷ []) (ended none)) ([], false)).result ≡ true
unfolding capture_log drain_on_error copy_log copy_chunks store_chunk note_overflow keep_bytes
    finish
capture_succeeds = refl

capture_log_lem_example :
    let f = chunk (1 ∷ 2 ∷ []) (ended none) in
    (feed_end f ≡ none)
    × ((capture_log log_file f ([], false)).world.0 ≡ [] ++ take log_limit (feed_bytes f))
    × ((capture_log log_file f ([], false)).world.1 ≡ ltb log_limit (length (feed_bytes f)))
capture_log_lem_example =
    capture_log_lem log_file-IsFile (chunk (1 ∷ 2 ∷ []) (ended none)) ([], false) capture_succeeds

capture_log-input_example :
    (capture_log log_file (chunk (1 ∷ 2 ∷ []) (final (3 ∷ []) none)) ([], false)).input ≡ ended none
capture_log-input_example =
    capture_log-input log_file (chunk (1 ∷ 2 ∷ []) (final (3 ∷ []) none)) ([], false)

setup_network_order_example :
    let (r, s) = setup_network network_host "sbx_a" (fresh 0) in
    Follows Call.load_firewall Call.write_journal s.calls
    × Follows Call.run_command Call.load_firewall s.calls
    × Follows Call.write_resolver Call.load_firewall s.calls
    × OnOk (λ _. done Call.write_resolver s.calls ≡ true) r
setup_network_order_example = setup_network_order network_host "sbx_a" 0

abbrev exec_request : Request
exec_request = record { method = method_post; path = bytes "/containers/sbx_a/exec"; body = [] }

serve_guards_example :
    let s = (serve json runtime exec_request 0).1 in
    (is_guarded s.events ≡ true) × (holder s.events ≡ none)
serve_guards_example = serve_guards json runtime exec_request 0
