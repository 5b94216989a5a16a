-- ===== src/Examples/Wire.antt =====
-- The wire-up of eight PEs that are all on nodes of their own.
use open_shmem_csci.Base.{ℕ, ◌<◌, ◌≡◌, ◌↔◌, refl, inl, inr, [], ◌∷◌, arith}
use open_shmem_csci.Comm.Node.{LocalityMap, remote}
use open_shmem_csci.Comm.Wireup.{connect, accept, comm_remote_wireup}
use open_shmem_csci.Comm.Wireup.Visits.{Dials, Accepts}
use open_shmem_csci.Comm.Wireup.Ending.{Ending}
use open_shmem_csci.Comm.Wireup.Ending.Total.{wireup-ends}
use open_shmem_csci.Comm.Wireup.Connected.{
  Meets, wireup-Dials_iff, wireup-Accepts, wireup-unconnected,
}

abbrev apart : ℕ → LocalityMap
apart pe = record { type = remote; index = pe; host = pe }

-- PE 6 accepts from the odd PEs, and is a client of 0 and 4
sixth :
    comm_remote_wireup apart 8 3 6
    ≡ accept 1
      ∷ accept 3
      ∷ accept 5
      ∷ accept 7
      ∷ connect 0 0 36500 36501
      ∷ connect 4 4 36508 36509
      ∷ []
unfolding comm_remote_wireup
sixth = refl

wireup-Dials_iff_example :
    Dials 4 (comm_remote_wireup apart 8 3 6) ↔ (Meets 6 4 × (4 < 8) × (remote ≡ remote))
wireup-Dials_iff_example = wireup-Dials_iff apart 8 3 6 4 (omega arith) (omega arith)

six-Dials_four : Dials 4 (comm_remote_wireup apart 8 3 6)
unfolding comm_remote_wireup
six-Dials_four = inr (inl refl)

wireup-Accepts_example : Accepts 6 (comm_remote_wireup apart 8 3 4)
wireup-Accepts_example =
    wireup-Accepts apart 8 3 6 4 apart (omega arith) (omega arith) refl six-Dials_four

wireup-unconnected_example :
    (¬ Dials 6 (comm_remote_wireup apart 8 3 2)) × (¬ Dials 2 (comm_remote_wireup apart 8 3 6))
wireup-unconnected_example = wireup-unconnected apart apart 8 3 2 6 (omega arith) refl

wireup-ends_example : Ending 8 (λ p. comm_remote_wireup apart 8 3 p)
wireup-ends_example = wireup-ends (λ p. apart) 8 3 (λ i j h h'. refl) (omega arith)
