-- ===== src/App.antt =====
-- NexusMainFrame.cpp: the services, their order, and the loop of the program. What a service does is
-- its own; the state of the whole program is `W`. The pause between two rounds and the output are left
-- out.
pub mod Order
pub mod Scheduler
mod Tests
use nexus_mainframe.Common.{
  ℕ, zero, suc, List, [], ◌∷◌, ◌++◌, Str, codes, Bool, true, false, Option, none, some,
  if◌then◌else◌,
}

-- A call returns, a `std::exception` leaves it, or something else that is thrown does.
pub data Ended (W : Type 0) : Type 0 where
  returned : W → Ended W
  raised : W → Ended W
  raised_other : W → Ended W

pub record Service (W : Type 0) : Type 0 where
  pub name : Str
  pub start : W → Ended W
  pub update : W → Ended W
  pub stop : W → Ended W

module _ {W : Type 0} where
  unfoldable pub add_service : List (Service W) → Service W → List (Service W)
  add_service services s = services ++ s ∷ []

  -- A `catch (const std::exception&)`.
  unfoldable pub caught : Ended W → Ended W
  caught (returned w) = returned w
  caught (raised w) = returned w
  caught (raised_other w) = raised_other w

  -- A `catch (...)` behind it.
  unfoldable pub caught_all : Ended W → W
  caught_all (returned w) = w
  caught_all (raised w) = w
  caught_all (raised_other w) = w

  infixl 5 ◌>>=◌
  abbrev pub ◌>>=◌ : Ended W → (W → Ended W) → Ended W
  returned w >>= k = k w
  raised w >>= k = raised w
  raised_other w >>= k = raised_other w

  -- The handler of `startAll` throws again.
  unfoldable pub start_all : List (Service W) → W → Ended W
  start_all [] w = returned w
  start_all (s ∷ ss) w = s.start w >>= start_all ss

  unfoldable pub update_all : List (Service W) → W → W
  update_all [] w = w
  update_all (s ∷ ss) w = update_all ss (caught_all (s.update w))

  unfoldable pub reverse : List (Service W) → List (Service W)
  reverse [] = []
  reverse (s ∷ ss) = reverse ss ++ s ∷ []

  unfoldable pub stop_each : List (Service W) → W → Ended W
  stop_each [] w = returned w
  stop_each (s ∷ ss) w = caught (s.stop w) >>= stop_each ss

  -- `shut` is the shutdown of the bus.
  unfoldable pub stop_all : (W → W) → List (Service W) → W → Ended W
  stop_all shut ss w = stop_each (reverse ss) (shut w)

-- What `registerBuiltinServices` makes: the services, over the configuration that is loaded between
-- the first and the others.
pub record Builtin (W : Type 0) : Type 0 where
  pub load_config : W → Ended W
  pub log : Service W
  pub modules : Service W
  pub mqtt : Service W
  pub devices : Service W
  pub rooms : Service W
  pub http : Service W
  pub mcp : Service W
  pub ws : Service W

-- The other parts of the program that the loop calls.
pub record Program (W : Type 0) : Type 0 where
  pub init_paths : W → Ended W
  pub builtin : Builtin W
  pub set_running : Bool → W → W
  pub is_running : W → Bool
  pub dispatch_pending : W → Ended W
  pub tick : W → Ended W
  pub shut_bus : W → W

module _ {W : Type 0} (p : Program W) where
  -- The services behind those that were added before. Where the configuration cannot be loaded `run`
  -- ends, and they are not used.
  unfoldable pub register_builtin : List (Service W) → List (Service W)
  register_builtin added =
      let b = p.builtin in
      added ++ (b.log ∷ b.modules ∷ b.mqtt ∷ b.devices ∷ b.rooms ∷ b.http ∷ b.mcp ∷ b.ws ∷ [])

  -- `stop` of the program.
  unfoldable pub stop : W → W
  stop w = p.set_running false w

  -- A round of the loop.
  unfoldable pub round : List (Service W) → W → Ended W
  round ss w = caught (p.dispatch_pending (update_all ss w)) >>= (λ v. caught (p.tick v))

  -- The loop ends when the flag is cleared; `none` is no outcome of the program but the end of the
  -- fuel.
  unfoldable pub loop : ℕ → List (Service W) → W → Option (Ended W)
  loop zero ss w = if p.is_running w then none else some (returned w)
  loop (suc fuel) ss w =
      if p.is_running w
      then elim (round ss w) [
        | returned v ↦ loop fuel ss v
        | raised v ↦ some (raised v)
        | raised_other v ↦ some (raised_other v)
      ]
      else some (returned w)

  unfoldable pub stop_behind : List (Service W) → Option (Ended W) → Option (Ended W)
  stop_behind ss none = none
  stop_behind ss (some (returned w)) = some (stop_all p.shut_bus ss w)
  stop_behind ss (some (raised w)) = some (raised w)
  stop_behind ss (some (raised_other w)) = some (raised_other w)

  -- From `startAll` on.
  unfoldable pub run_services : ℕ → List (Service W) → W → Option (Ended W)
  run_services fuel ss w = elim (start_all ss w) [
    | returned v ↦ stop_behind ss (loop fuel ss (p.set_running true v))
    | raised v ↦ some (raised v)
    | raised_other v ↦ some (raised_other v)
  ]

  unfoldable pub run : ℕ → List (Service W) → W → Option (Ended W)
  run fuel added w = elim (p.init_paths w >>= p.builtin.load_config) [
    | raised v ↦ some (raised v)
    | raised_other v ↦ some (raised_other v)
    | returned v ↦ run_services fuel (register_builtin added) v
  ]
