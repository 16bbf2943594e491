-- ===== src/Handlers/Sent.antt =====
-- handler.go: what stands behind an envelope, for every handler.
use core_wallet.Prelude.{ℕ, String, ◌≡◌, refl}
use core_wallet.Posting.{Result, ok, fail}
use core_wallet.Requests.{Bound, bound, invalid}
use core_wallet.Handlers.{Response, sent, SuccessEnvelope, ok_envelope, respond, on_bound}

pub respond_sent :
    {R B D : Type 0} (code : R → ℕ) (from : R → B) (now : String) (s : Result R × D) (status : ℕ)
    (env : SuccessEnvelope B) (db' : D)
    → respond code from now s ≡ (sent status env, db')
    → (res : R) × (s ≡ (ok res, db')) × (status ≡ code res) × (env ≡ ok_envelope (from res) now)
unfolding respond
respond_sent code from now (ok res, db) status env db' h = (res, cc, cc, cc)
respond_sent code from now (fail e, db) status env db' h = absurd cc

pub on_bound_sent :
    {Q B D : Type 0} (now : String) (b : Bound Q) (rest : Q → D → Response B × D) (db : D)
    (status : ℕ) (env : SuccessEnvelope B) (db' : D)
    → on_bound now b rest db ≡ (sent status env, db')
    → (req : Q) × (b ≡ bound req) × (rest req db ≡ (sent status env, db'))
unfolding on_bound
on_bound_sent now (bound req) rest db status env db' h = (req, refl, h)
on_bound_sent now (invalid errors) rest db status env db' h = absurd cc
