-- ===== src/Queue/Boost/Host.antt =====
-- The name of the host in BoostTests.cpp.
use rdma_project.Common.{
  ℕ, zero, suc, ◌+◌, ◌<◌, ◌≡◌, ◌≢◌, refl, ap, ◌∙◌, List, [], ◌∷◌, ◌++◌, some, length, drop, All,
}
use rdma_project.Queue.Boost.{string_of, hostname}

string_of-append :
    (name after : List ℕ) → All (λ c. c ≢ 0) name → string_of (name ++ 0 ∷ after) ≡ some name
unfolding string_of
string_of-append [] after h = refl
string_of-append (zero ∷ name) after h = absurd (h.0 refl)
string_of-append (suc c ∷ name) after h = rw (string_of-append name after h.1) refl

-- Where `gethostname` writes a name of less than 2048 characters, none of them NUL, with a NUL behind
-- it: `hostname` gives that name, whatever was in the array before.
pub hostname-name :
    (gethostname : ℕ → List ℕ → List ℕ) (name buf : List ℕ)
    → ((len : ℕ) (b : List ℕ)
        → length name < len
        → gethostname len b ≡ name ++ 0 ∷ drop (length name + 1) b)
    → length name < 2048
    → All (λ c. c ≢ 0) name
    → hostname gethostname buf ≡ some name
unfolding hostname
hostname-name gethostname name buf writes short letters =
    ap string_of (writes 2048 buf short) ∙ string_of-append name _ letters
