-- ===== src/Cfg/Bind.antt =====
-- The chains of fallible steps in the configuration: what an accepted chain comes from.
use act.Common.{Bool, true, false, ◌≡◌, refl, arith}
use act.Cfg.{Checked, ConfigError, accepted, rejected, crashes, ◌>>=◌, ◌>>◌, refuse_if}

pub bind-accepted :
    {A B : Type 0} (m : Checked A) (f : A → Checked B) (b : B)
    → (m >>= f) ≡ accepted b
    → (a : A) × (m ≡ accepted a) × (f a ≡ accepted b)
bind-accepted (accepted a) f b e = (a, refl, e)
bind-accepted (rejected x) f b e = ground arith
bind-accepted crashes f b e = ground arith

pub refuse_if-accepted :
    {B : Type 0} (bad : Bool) (why : ConfigError) (k : Checked B) (b : B)
    → (refuse_if bad why >> k) ≡ accepted b
    → (bad ≡ false) × (k ≡ accepted b)
refuse_if-accepted true why k b e = ground arith
refuse_if-accepted false why k b e = (refl, e)
