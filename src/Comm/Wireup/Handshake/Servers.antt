-- ===== src/Comm/Wireup/Handshake/Servers.antt =====
-- The calls of the server.
use mathlib.Core.Path.{subst}
use open_shmem_csci.Base.{
  assign, assign_at, assign_off, ℕ, ◌≡◌, ◌≢◌, ◌∙◌, refl, sym, ap, inl, inr, Bool, true, none, some,
  List, [], ◌∷◌, All,
}
use native.Mathlib.Decide.{ℕ_discrete}
use open_shmem_csci.Comm.Wireup.Handshake.{
  idle, accepted, asking, named, Handshake, accept_cmd, send_byte, receive_name, accept_data,
}
use open_shmem_csci.Comm.Wireup.Handshake.Sound.{Serves, Rests, Asked, Busy, Queued, In, IsSound}
use open_shmem_csci.Comm.Wireup.Handshake.States.{
  waiting-connected, connected-greeted, connected-told, Asked-dials, Asked-inv, Named-inv,
}
use open_shmem_csci.Comm.Wireup.Handshake.Kept.{Rests-same, Queued-same, connected-dials}

module _ {index : ℕ → ℕ} {remote : ℕ → Bool}
    (inj : (i j : ℕ) → remote i ≡ true → remote j ≡ true → index i ≡ index j → i ≡ j)
    {s : Handshake} (v : IsSound index remote s) where
  pub accept_cmd-IsSound :
      (peer : ℕ) (rest : List ℕ)
      → s.server ≡ idle
      → s.cmd_queue ≡ peer ∷ rest
      → IsSound index remote (accept_cmd peer rest s)
  unfolding accept_cmd
  accept_cmd-IsSound peer rest e eq =
      let nobody = λ (j : ℕ) (h : Serves s.server j). subst (λ x. Serves x j) e h in
      let q : Queued s (peer ∷ rest) = subst (Queued s) eq v.queued in
      let r = v.rests peer (nobody peer) in
      record {
        dials = v.dials;
        listed = λ j w h. In-behind j (λ k. h (sym k)) (subst (In j) eq (v.listed j w (nobody j)));
        rests = λ j h.
            Rests-same index s (accept_cmd peer rest s) j refl refl refl (λ k. refl) (λ k. refl)
              (v.rests j (nobody j));
        busy = (q.0, r.silent, r.nameless, subst (Busy index s) e v.busy);
        queued = Queued-accept rest q.2 q.3;
      }
    where
      In-behind : (j : ℕ) → j ≢ peer → In j (peer ∷ rest) → In j rest
      In-behind j ne (inl k) = absurd (ne k)
      In-behind j ne (inr k) = k

      Queued-accept :
          (l : List ℕ) → All (λ j. j ≢ peer) l → Queued s l → Queued (accept_cmd peer rest s) l
      Queued-accept [] ne q = tt
      Queued-accept (i ∷ l) (ne, nes) (w, free, diff, q) =
          (w, (λ k. ne (sym k)), diff, Queued-accept l nes q)

  pub send_byte-IsSound :
      (peer : ℕ) → s.server ≡ accepted peer → IsSound index remote (send_byte peer s)
  unfolding send_byte
  send_byte-IsSound peer e =
      let b : Busy index s (accepted peer) = subst (Busy index s) e v.busy in
      let off = λ (j : ℕ) (h : peer ≢ j). assign_off s.greeting peer true j (λ k. h (sym k)) in
      let free =
        λ (j : ℕ) (h : peer ≢ j) (k : Serves s.server j). h (subst (λ x. Serves x j) e k) in
      record {
        dials = v.dials;
        listed = λ j w h. v.listed j w (λ k. h (subst (λ x. Serves x j) e k));
        rests = λ j h.
            Rests-same index s (send_byte peer s) j (off j h) refl refl (λ k. refl) (λ k. refl)
              (v.rests j (free j h));
        busy =
            subst (Asked (send_byte peer s) peer) (sym b.0)
              (assign_at s.greeting peer true, b.2, b.3);
        queued =
            Queued-same s (send_byte peer s) s.cmd_queue
              (λ j w h. (w, λ k. h (subst (λ x. Serves x j) (sym e) k))) v.queued;
      }

  pub receive_name-IsSound :
      (peer pe : ℕ)
      → s.server ≡ asking peer
      → s.name peer ≡ some pe
      → IsSound index remote (receive_name peer pe (index pe) s)
  unfolding receive_name
  receive_name-IsSound peer pe e sent =
      let b : Asked s peer (s.client peer) = subst (Busy index s) e v.busy in
      let mine = v.dials peer (Asked-dials index s peer (s.client peer) refl b) in
      let (same, silent, q) = Asked-inv index s peer pe (s.client peer) b sent in
      let off = λ (j : ℕ) (h : peer ≢ j). assign_off s.name peer none j (λ k. h (sym k)) in
      let free =
        λ (j : ℕ) (h : peer ≢ j) (k : Serves s.server j). h (subst (λ x. Serves x j) e k) in
      record {
        dials = v.dials;
        listed = λ j w h. v.listed j w (λ k. h (subst (λ x. Serves x j) e k));
        rests = λ j h.
            Rests-same index s (receive_name peer pe (index pe) s) j refl (off j h) refl
              (λ done. assign_off s.sockets_cmd (index pe) (some peer) (index j) (λ k. h (
                sym same
                ∙ sym (
                    inj j pe (v.dials j (connected-dials s j done))
                      (subst (λ x. remote x ≡ true) (sym same) mine) k))))
              (λ done. refl) (v.rests j (free j h));
        busy = (
          same,
          silent,
          assign_at s.name peer none,
          ap (assign s.sockets_cmd (index pe) (some peer)) (ap index (sym same))
              ∙ assign_at s.sockets_cmd (index pe) (some peer),
          q,
        );
        queued =
            Queued-same s (receive_name peer pe (index pe) s) s.cmd_queue
              (λ j w h. (w, λ k. h (subst (λ x. Serves x j) (sym e) k))) v.queued;
      }

  pub accept_data-IsSound :
      (peer pe other : ℕ) (rest : List ℕ)
      → s.server ≡ named peer pe
      → s.data_queue ≡ other ∷ rest
      → IsSound index remote (accept_data other (index pe) rest s)
  unfolding accept_data
  accept_data-IsSound peer pe other rest e q =
      let b : Busy index s (named peer pe) = subst (Busy index s) e v.busy in
      let (there, same, empty) = Named-inv index s peer other rest (s.client peer) refl b.4 q in
      let t = accept_data other (index pe) rest s in
      let put : t.sockets_data (index peer) ≡ some peer =
        ap (assign s.sockets_data (index pe) (some other)) (ap index (sym b.0))
        ∙ assign_at s.sockets_data (index pe) (some other)
        ∙ ap (λ x. some x) same in
      let mine : Rests index t peer = record {
        silent = b.1;
        nameless = b.2;
        not_greeted = λ k. connected-greeted (sym there ∙ k);
        not_told = λ k. connected-told (sym there ∙ k);
        placed = λ k. (b.3, put);
      } in
      record {
        dials = v.dials;
        listed = λ j w h. v.listed j w (λ k.
            waiting-connected (sym w ∙ ap s.client (sym (subst (λ x. Serves x j) e k)) ∙ there));
        rests = λ j h. elim (ℕ_discrete peer j) [
          | yes at_peer ↦ subst (Rests index t) at_peer mine
          | no ne ↦
              Rests-same index s t j refl refl refl (λ done. refl)
                (λ done. assign_off s.sockets_data (index pe) (some other) (index j) (λ k. ne (
                  sym b.0
                  ∙ sym (
                      inj j pe (v.dials j (connected-dials s j done))
                        (subst (λ x. remote x ≡ true) (sym b.0)
                          (v.dials peer (connected-dials s peer there)))
                        k))))
                (v.rests j (λ k. ne (subst (λ x. Serves x j) e k)))
        ];
        busy = empty;
        queued = Queued-same s t s.cmd_queue (λ j w h. (w, λ k. k)) v.queued;
      }
