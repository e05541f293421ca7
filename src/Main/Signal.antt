-- ===== src/Main/Signal.antt =====
-- The signal SIGUSR1 ends the loop server_runing_burst.
use wlan_bridge.Common.{
  ℕ, ◌≡◌, sym, ◌∙◌, inl, inr, true, false, not, ◌||◌, none, some, List, [], ◌∷◌, ◌++◌, arith,
  Bool-cases, Option-cases,
}
use wlan_bridge.Forward.{Env}
use wlan_bridge.Main.{Server, Round, on_wakeup, server_runing_burst}
use wlan_bridge.Main.Run.{run_step}

module _ {T L S : Type 0} (env : Env T L S) (fuel : ℕ) where
  stopped_lem :
      (m : Server T L S) (r : Round) (rs : List Round)
      → (r.signalled || not m.rx_task_is_running) ≡ true
      → server_runing_burst env fuel m (r ∷ rs) ≡ some (record m { rx_task_is_running = false })
  unfolding server_runing_burst
  stopped_lem m r rs h = ground (arith, h)

  stuck_lem :
      (m : Server T L S) (r : Round) (rs : List Round)
      → (r.signalled || not m.rx_task_is_running) ≡ false
      → on_wakeup env fuel m r.nfds r.evs ≡ none
      → server_runing_burst env fuel m (r ∷ rs) ≡ none
  unfolding server_runing_burst
  stuck_lem m r rs h e = ground (arith, h, e)

  module _ (r : Round) (sig : r.signalled ≡ true) (rest : List Round) where
    -- What would come after the signal makes no difference.
    pub rest_unused :
        (m : Server T L S) (rs : List Round)
        → server_runing_burst env fuel m (rs ++ r ∷ rest)
          ≡ server_runing_burst env fuel m (rs ++ r ∷ [])
    rest_unused m [] =
        let h : (r.signalled || not m.rx_task_is_running) ≡ true = ground (arith, sig) in
        stopped_lem m r rest h ∙ sym (stopped_lem m r [] h)
    rest_unused m (x ∷ rs) = elim (Bool-cases (x.signalled || not m.rx_task_is_running)) [
      | inl h ↦ stopped_lem m x (rs ++ r ∷ rest) h ∙ sym (stopped_lem m x (rs ++ r ∷ []) h)
      | inr h ↦ elim (Option-cases (on_wakeup env fuel m x.nfds x.evs)) [
        | inl e ↦ stuck_lem m x (rs ++ r ∷ rest) h e ∙ sym (stuck_lem m x (rs ++ r ∷ []) h e)
        | inr (m', e) ↦
            run_step env fuel m m' x (rs ++ r ∷ rest) h e
            ∙ rest_unused m' rs
            ∙ sym (run_step env fuel m m' x (rs ++ r ∷ []) h e)
      ]
    ]
