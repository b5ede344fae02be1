-- ===== src/Server/Metrics.antt =====
-- The parts of watch/command.go that ExecuteWithClient calls: the temporary directory, and the HTTP server
-- of the metrics. The calls on the system are parameters; the registry is that of Prometheus.
use baamhackl.Base.{Option, none, some, ◌⊎◌, inl, inr}
use baamhackl.FilePaths.{FilePath}
use baamhackl.Waryio.{IoError, not_exist, Result}

-- The function that removes the directory, for the result of os.RemoveAll: a missing one is no error.
unfoldable pub removal_error : Option IoError → Option IoError
removal_error none = none
removal_error (some not_exist) = none
removal_error (some e) = some e

-- createTempDir, with that function.
unfoldable pub create_temp_dir :
    {W : Type 0}
    → (W → FilePath → W × Result FilePath)
    → (W → FilePath → W × Option IoError)
    → FilePath
    → W
    → W × Result (FilePath × (W → W × Option IoError))
create_temp_dir {W} make_temp remove_all parent w =
    let (w', made) = make_temp w parent in
    let remove : FilePath → W → W × Option IoError =
      λ dir w. let (w1, err) = remove_all w dir in (w1, removal_error err) in
    elim made [ inl e ↦ (w', inl e) | inr dir ↦ (w', inr (dir, remove dir)) ]

-- net.Listen, the start of the goroutine that serves, Shutdown, and the wait for that goroutine, which
-- fails with the error of the context where it ends before.
pub record MetricsCalls (W E L : Type 0) : Type 0 where
  pub listen : W → W × (E ⊎ L)
  pub start : W → L → W
  pub shut_down : W → L → W × Option E
  pub wait_closed : W → L → W × Option E

module _ {W E L : Type 0} (calls : MetricsCalls W E L) where
  -- The function that serveMetrics returns.
  unfoldable pub stop_metrics : L → W → W × Option E
  stop_metrics l w =
      let (w1, err) = calls.shut_down w l in
      let (w2, ended) = calls.wait_closed w1 l in
      elim err [ some e ↦ (w1, some e) | none ↦ (w2, ended) ]

  -- serveMetrics, which has no errors of its own.
  unfoldable pub serve_metrics : L → W → W × (W → W × Option E)
  serve_metrics l w = (calls.start w l, stop_metrics l)

  -- listenAndServeMetrics, less the URL.
  unfoldable pub listen_and_serve_metrics : W → W × (E ⊎ (W → W × Option E))
  listen_and_serve_metrics w =
      let (w1, listening) = calls.listen w in
      elim listening [
        | inl e ↦ (w1, inl e)
        | inr l ↦ let (w2, stop) = serve_metrics l w1 in (w2, inr stop)
      ]
