-- ===== src/App/Order.antt =====
-- The order in which services start and stop.
use nexus_mainframe.Common.{
  ℕ, ◌≡◌, refl, ap, ◌∙◌, List, [], ◌∷◌, ◌++◌, Option, some, All, arith, Bool, true, false,
}
use nexus_mainframe.App.{
  Ended, returned, raised, raised_other, Service, Program, caught, caught_all, ◌>>=◌, start_all,
  stop_all, stop_each, reverse, run_services,
}

module _ {W : Type 0} where
  -- Nothing leaves the service's `stop` but what derives from `std::exception`.
  abbrev pub IsTame : Service W → Type 0
  IsTame s = (w : W) → caught (s.stop w) ≡ returned (caught_all (s.stop w))

  -- A service stops when all behind it have.
  unfoldable pub stopped : List (Service W) → W → W
  stopped [] w = w
  stopped (s ∷ ss) w = caught_all (s.stop (stopped ss w))

  bind-bind :
      (e : Ended W) (f g h : W → Ended W)
      → ((w : W) → f w ≡ (g w >>= h))
      → (e >>= f) ≡ ((e >>= g) >>= h)
  bind-bind (returned w) f g h a = a w
  bind-bind (raised w) f g h a = refl
  bind-bind (raised_other w) f g h a = refl

  stop_each-append :
      (ss ts : List (Service W)) (w : W)
      → stop_each (ss ++ ts) w ≡ (stop_each ss w >>= stop_each ts)
  unfolding stop_each
  stop_each-append [] ts w = refl
  stop_each-append (s ∷ ss) ts w =
      bind-bind (caught (s.stop w)) (stop_each (ss ++ ts)) (stop_each ss) (stop_each ts)
        (stop_each-append ss ts)

  stop_each-reverse :
      (ss : List (Service W)) (w : W)
      → All IsTame ss
      → stop_each (reverse ss) w ≡ returned (stopped ss w)
  unfolding reverse stopped stop_each
  stop_each-reverse [] w a = unfold stop_each in refl
  stop_each-reverse (s ∷ ss) w a =
      stop_each-append (reverse ss) (s ∷ []) w
      ∙ ap (λ (e : Ended W). e >>= stop_each (s ∷ [])) (stop_each-reverse ss w a.1)
      ∙ rw (stop_each, a.0 (stopped ss w)) (unfold stop_each in refl)

  -- Where no service lets anything but a `std::exception` out of its `stop`, `stopAll` ends, and has
  -- shut the bus down first and then stopped every service once, each behind all that came after it,
  -- also behind those whose `stop` threw.
  pub stop_all-stopped :
      (shut : W → W) (ss : List (Service W)) (w : W)
      → All IsTame ss
      → stop_all shut ss w ≡ returned (stopped ss (shut w))
  unfolding stop_all
  stop_all-stopped shut ss w a = stop_each-reverse ss (shut w) a

  start_all-append :
      (ss ts : List (Service W)) (w : W)
      → start_all (ss ++ ts) w ≡ (start_all ss w >>= start_all ts)
  unfolding start_all
  start_all-append [] ts w = refl
  start_all-append (s ∷ ss) ts w =
      bind-bind (s.start w) (start_all (ss ++ ts)) (start_all ss) (start_all ts)
        (start_all-append ss ts)

-- Anything but a return.
unfoldable pub has_thrown : {W : Type 0} → Ended W → Bool
has_thrown (returned w) = false
has_thrown (raised w) = true
has_thrown (raised_other w) = true

thrown-stays :
    {W : Type 0} (e : Ended W) (k : W → Ended W) (g : W → Option (Ended W))
    → has_thrown e ≡ true
    → elim (e >>= k) as (λ _. Option (Ended W)) [
      | returned v ↦ g v
      | raised v ↦ some (raised v)
      | raised_other v ↦ some (raised_other v)
    ]
      ≡ some e
unfolding has_thrown
thrown-stays (returned w) k g h = absurd (ground (arith, h))
thrown-stays (raised w) k g h = refl
thrown-stays (raised_other w) k g h = refl

module _ {W : Type 0} (p : Program W) where
  -- Where the `start` of a service throws, whatever it throws, `startAll` and what follows it in `run`
  -- end with that exception in the state that this `start` left: no service behind it is started, the
  -- loop is not entered, and none of the services before it, which have started, is stopped.
  pub run_services-start_raised :
      (fuel : ℕ) (before behind : List (Service W)) (s : Service W) (w v : W)
      → start_all before w ≡ returned v
      → has_thrown (s.start v) ≡ true
      → run_services p fuel (before ++ s ∷ behind) w ≡ some (s.start v)
  unfolding run_services start_all
  run_services-start_raised fuel before behind s w v e f =
      rw (run_services, start_all-append before (s ∷ behind) w, e)
        (thrown-stays (s.start v) (start_all behind) _ f)
