-- ===== src/Kernel/Printk/Tests.antt =====
-- Numbers as they are printed.
use yax.Base.{◌≡◌, refl, some, none, [], ◌∷◌, ◌++◌, arith, length}
use yax.Base.Int.{pos, negsuc}
use yax.Kernel.Printk.{uiprintk, iprintk, uxprintk, nprintk, fill, pcprintk}
use yax.Kernel.Printk.Parse.{strtoll-uiprintk}
use yax.Libc.Num.{strtoll}

strtoll-uiprintk_example :
    strtoll (uiprintk 1024 ++ (0 ∷ [])) 10
    ≡ some (record { result = pos 1024; stop = some (length (uiprintk 1024)); error = none })
strtoll-uiprintk_example = strtoll-uiprintk 1024 [] (omega arith)

-- `-10` and `A0`
printed : (iprintk (negsuc 9) ≡ 45 ∷ 49 ∷ 48 ∷ []) × (uxprintk 160 ≡ 65 ∷ 48 ∷ [])
unfolding iprintk uxprintk nprintk fill pcprintk
printed = (refl, refl)
