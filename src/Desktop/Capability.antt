-- ===== src/Desktop/Capability.antt =====
-- `resolve_desktop_sync_capability` of clients/desktop-rust/src/lib.rs.
use opto_sync_clients.Base.{
  ◌≡◌, ◌⊎◌, Bool, true, false, ◌&&◌, ◌||◌, not, Result, ok, err, if◌then◌else◌, arith,
}

pub data DesktopRuntime : Type 0 where
  node electron flutter rust_native wasm_web_view : DesktopRuntime

pub data DesktopExecutionClass : Type 0 where
  persistent_native_runner service_worker_events foreground_only : DesktopExecutionClass

pub data DesktopTcpCapability : Type 0 where
  native host_bridge unsupported : DesktopTcpCapability

pub record DesktopCapabilityInput : Type 0 where
  pub runtime : DesktopRuntime
  pub service_worker_available : Bool
  pub native_host_bridge_available : Bool
  pub persistent_native_runner_available : Bool
  pub tcp_available : Bool

pub record DesktopSyncCapability : Type 0 where
  pub runtime : DesktopRuntime
  pub execution_class : DesktopExecutionClass
  pub http : Bool
  pub websocket_lives_for_host_process : Bool
  pub tcp : DesktopTcpCapability
  pub survives_window_closure : Bool
  pub survives_host_termination : Bool
  pub exact_intervals_guaranteed : Bool

pub data DesktopCapabilityError : Type 0 where
  wasm_persistent_runner_needs_native_bridge : DesktopCapabilityError

abbrev pub is_wasm : DesktopRuntime → Bool
is_wasm wasm_web_view = true
is_wasm _ = false

abbrev is_persistent : DesktopExecutionClass → Bool
is_persistent persistent_native_runner = true
is_persistent _ = false

unfoldable pub resolve_desktop_sync_capability :
    DesktopCapabilityInput → Result DesktopSyncCapability DesktopCapabilityError
resolve_desktop_sync_capability input =
    if is_wasm input.runtime
      && input.persistent_native_runner_available
      && not input.native_host_bridge_available
    then err wasm_persistent_runner_needs_native_bridge
    else let execution_class =
        if input.persistent_native_runner_available
        then persistent_native_runner
        else if input.service_worker_available
        then service_worker_events
        else foreground_only in
      let tcp =
        if not input.tcp_available
        then unsupported
        else if is_wasm input.runtime
        then if input.native_host_bridge_available then host_bridge else unsupported
        else native in
      ok (record {
        runtime = input.runtime;
        execution_class = execution_class;
        http = true;
        websocket_lives_for_host_process = is_persistent execution_class;
        tcp = tcp;
        survives_window_closure = is_persistent execution_class || input.service_worker_available;
        survives_host_termination = is_persistent execution_class;
        exact_intervals_guaranteed = false;
      })

-- No answer overstates the host: a WebAssembly view never claims native sockets, claims any only
-- with a bridge, and claims to outlive the host only with a native runner and a bridge; exact
-- intervals are promised to none; what outlives the host outlives its window.
pub capability_honest :
    (input : DesktopCapabilityInput) {c : DesktopSyncCapability}
    → resolve_desktop_sync_capability input ≡ ok c
    → (c.exact_intervals_guaranteed ≡ false)
      × ((is_wasm input.runtime ≡ false)
          ⊎ (c.tcp ≡ unsupported)
          ⊎ (c.tcp ≡ host_bridge) × (input.native_host_bridge_available ≡ true))
      × ((c.survives_host_termination ≡ false)
          ⊎ (input.persistent_native_runner_available ≡ true)
            × (c.survives_window_closure ≡ true)
            × (is_wasm input.runtime && not input.native_host_bridge_available ≡ false))
unfolding resolve_desktop_sync_capability
capability_honest input h = ground arith
