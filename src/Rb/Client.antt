-- ===== src/Rb/Client.antt =====
-- A client of rb/rb.h that calls one function after another. A read or a look gets a fresh
-- destination of the size asked for, as the callers in rb/rb_test1.c and rb/rb_test2.c do.
pub mod Refine
use csnip.Base.{ℕ, zero, suc, Option, none, some, List, [], ◌∷◌, ◌>>=◌, length, take}
use csnip.Rb.State.{Rb, reset}
use csnip.Rb.Copy.{read, write, peek}
use csnip.Rb.Advance.{skip, drop_all}
use csnip.Rb.Queue.{Call, Reply}

abbrev pub zeros : ℕ → List ℕ
zeros zero = []
zeros (suc n) = 0 ∷ zeros n

unfoldable pub step : Rb → Call → Option (Reply × Rb)
step rb (Call.write source) = write rb source (length source) >>= λ (k, rb'). some ((k, []), rb')
step rb (Call.read n) = read rb (zeros n) n >>= λ (k, dest, rb'). some ((k, take k dest), rb')
step rb (Call.peek n) = peek rb (zeros n) n >>= λ (k, dest, rb'). some ((k, take k dest), rb')
step rb (Call.skip n) = skip rb n >>= λ (k, rb'). some ((k, []), rb')
step rb Call.drop_all = drop_all rb >>= λ (k, rb'). some ((k, []), rb')
step rb Call.reset = some ((0, []), reset rb)

unfoldable pub run : Rb → List Call → Option (List Reply × Rb)
run rb [] = some ([], rb)
run rb (c ∷ cs) =
    step rb c >>= λ (reply, rb'). run rb' cs >>= λ (replies, rb''). some (reply ∷ replies, rb'')
