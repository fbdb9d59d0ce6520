-- ===== src/Boot/Enter.antt =====
-- The wait for Enter, and the first line of the monitor.
use storm_os.Base.{
  ==_ne, All, ℕ, ◌+◌, ◌*◌, ◌%◌, ◌^◌, ◌≤◌, ◌<◌, ◌≡◌, refl, ◌≢◌, false, none, some, List, [], ◌∷◌,
  ◌++◌, arith,
}
use storm_os.MemPhysical.Init.{Smap}
use storm_os.Kernel.{Kernel}
use storm_os.Monitor.{Monitor, monitor_start}
use storm_os.Monitor.Editor.{Line, Held, Next, monitor_keys_lem, echoes, edits, reply}
use storm_os.Boot.Initialized.{IsFresh, IsInitialized, initialize-IsInitialized}
use storm_os.MemVirtual.Ram.{word}
use storm_os.Boot.{Image, KernInfo, initialize, wait_for_enter, start_calls, kernel_main}

waits : (keys : List ℕ) → All (λ c. c ≢ b'\n') keys → wait_for_enter keys ≡ none
unfolding wait_for_enter
waits [] h = refl
waits (c ∷ keys) (ne, rest) = rw (==_ne c b'\n' ne) (waits keys rest)

goes_on :
    (keys later : List ℕ)
    → All (λ c. c ≢ b'\n') keys
    → wait_for_enter (keys ++ b'\n' ∷ later) ≡ some later
unfolding wait_for_enter
goes_on [] later h = refl
goes_on (c ∷ keys) later (ne, rest) = rw (==_ne c b'\n' ne) (goes_on keys later rest)

-- When the globals have their initial values, pageDirIdentity is aligned to a page and ends within
-- the address space, and the monitor was not left, KernelMain establishes the invariants of the
-- parts before it reads a key, and waits while no key is Enter. The first line that is typed behind
-- Enter is edited, shown and run as the monitor does, behind the banner.
pub kernel_main_lem :
    (image : Image) (smap : List Smap) (info : KernInfo) (monitor : Monitor) (k : Kernel)
    (idle keys : List ℕ)
    → IsFresh k
    → image.tss0 < 2 ^ 32
    → image.identity % 4096 ≡ 0
    → image.identity + 1024 * 4096 ≤ word
    → monitor.left ≡ false
    → All (λ c. c ≢ b'\n') idle
    → All (λ c. c ≢ b'\n') keys
    → (ready : Kernel) × IsInitialized image k.pic.irqmask ready
      × (kernel_main image smap info idle monitor k ≡ some (start_calls smap info k, ready, none))
      × (t : Monitor) × (kernel_main image smap info
            (idle ++ b'\n' ∷ (keys ++ b'\n' ∷ []))
            monitor
            k
          ≡ some (
            start_calls smap info k
                ++ (monitor_start monitor).1
                ++ (echoes keys ++ reply (edits keys [])),
            ready,
            some t,
          ))
      × Next t (edits keys [])
unfolding kernel_main
kernel_main_lem image smap info monitor k idle keys fresh small aligned fits here quiet typed =
    let empty : Line (monitor_start monitor).0 [] = record {
      index = refl;
      fits = omega arith;
      held = unfold Held in tt;
      here = here;
    } in
    let (t, e, after) = monitor_keys_lem keys [] (monitor_start monitor).0 typed empty in
    (
      initialize image smap k,
      initialize-IsInitialized image smap k fresh small aligned fits,
      rw (kernel_main, waits idle quiet) refl,
      t,
      rw (kernel_main, goes_on idle (keys ++ b'\n' ∷ []) quiet, e) refl,
      after,
    )
