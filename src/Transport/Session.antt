-- ===== src/Transport/Session.antt =====
-- `DeviceSession` of transport/models.py: it owns its resources, and closes them once.
use orbit_flow_evo.Base.{
  ℕ, zero, suc, ◌+◌, ◌≡◌, refl, Bool, true, false, Option, none, String, if◌then◌else◌,
}

pub record DeviceSession : Type 0 where
  pub closed : Bool
  pub secret : Option String
  -- How often the cleanup was called.
  pub cleanups : ℕ

abbrev pub new_session : Option String → DeviceSession
new_session secret = record { closed = false; secret = secret; cleanups = 0 }

unfoldable pub close : DeviceSession → DeviceSession
close s = if s.closed then s else record { closed = true; secret = none; cleanups = s.cleanups + 1 }

-- `close` called a number of times, by the program and at the end of a `with` block.
unfoldable pub close_all : ℕ → DeviceSession → DeviceSession
close_all zero s = s
close_all (suc more) s = close_all more (close s)

-- However often a new session is closed after the first time, its cleanup ran exactly once, and its
-- secret is gone.
pub close_once :
    (secret : Option String) (more : ℕ)
    → close_all (suc more) (new_session secret)
      ≡ record { closed = true; secret = none; cleanups = 1 }
unfolding close_all close
close_once secret more = stays more
  where
    stays :
        (more : ℕ)
        → close_all more (record { closed = true; secret = none; cleanups = 1 })
          ≡ record { closed = true; secret = none; cleanups = 1 }
    stays zero = refl
    stays (suc rest) = stays rest
