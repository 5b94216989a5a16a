-- ===== src/Comm/Wireup/Handshake/Clients.antt =====
-- The calls of a client.
use mathlib.Core.Path.{subst}
use open_shmem_csci.Base.{
  assign_at, assign_off, ℕ, ◌≡◌, ◌≢◌, ◌∙◌, refl, sym, ap, inl, inr, Bool, true, false, some, [],
  ◌∷◌, ◌++◌, arith,
}
use native.Mathlib.Decide.{ℕ_discrete}
use open_shmem_csci.Comm.Wireup.Handshake.{
  apart, waiting, greeted, told, connected, Handshake, connect_cmd, receive_byte, send_name,
  connect_data,
}
use open_shmem_csci.Comm.Wireup.Handshake.Sound.{
  Serves, Rests, Asked, Named, Busy, Queued, In, IsSound,
}
use open_shmem_csci.Comm.Wireup.Handshake.States.{
  Serves-cases, waiting-apart, greeted-apart, told-apart, waiting-greeted, waiting-told,
  waiting-connected, false-true, greeting-asking, greeted-asking, told-served,
}
use open_shmem_csci.Comm.Wireup.Handshake.Kept.{
  Rests-same, Busy-same, Queued-same, Queued-append, Queued-apart, served-client, In-append,
}

module _ {index : ℕ → ℕ} {remote : ℕ → Bool}
    (inj : (i j : ℕ) → remote i ≡ true → remote j ≡ true → index i ≡ index j → i ≡ j)
    {s : Handshake} (v : IsSound index remote s) where
  pub connect_cmd-IsSound :
      (i : ℕ) → remote i ≡ true → s.client i ≡ apart → IsSound index remote (connect_cmd i s)
  unfolding connect_cmd
  connect_cmd-IsSound i away e =
      let free = served-client index s s.server i e v.busy in
      let r = v.rests i free in
      let now = assign_at s.client i waiting in
      let here : Rests index (connect_cmd i s) i = record {
        silent = r.silent;
        nameless = r.nameless;
        not_greeted = λ k. waiting-greeted (sym now ∙ k);
        not_told = λ k. waiting-told (sym now ∙ k);
        placed = λ k. absurd (waiting-connected (sym now ∙ k));
      } in
      record {
        dials = λ j out. elim (ℕ_discrete j i) [
          | yes same ↦ subst (λ x. remote x ≡ true) (sym same) away
          | no ne ↦ v.dials j (λ k. out (assign_off s.client i waiting j ne ∙ k))
        ];
        listed = λ j w h. In-append j i s.cmd_queue (elim (ℕ_discrete j i) [
          | yes same ↦ inl same
          | no ne ↦ inr (v.listed j (sym (assign_off s.client i waiting j ne) ∙ w) h)
        ]);
        rests = λ j h. elim (ℕ_discrete j i) [
          | yes same ↦ subst (Rests index (connect_cmd i s)) (sym same) here
          | no ne ↦
              Rests-same index s (connect_cmd i s) j refl refl (assign_off s.client i waiting j ne)
                (λ k. refl) (λ k. refl) (v.rests j h)
        ];
        busy =
            Busy-same index s (connect_cmd i s) s.server
              (λ j h. (
                refl,
                refl,
                assign_off s.client i waiting j (λ k. free (subst (Serves s.server) k h)),
                refl,
              ))
              refl v.busy;
        queued =
            Queued-append (connect_cmd i s) i s.cmd_queue now free
              (Queued-apart s i s.cmd_queue e v.queued)
              (Queued-same s (connect_cmd i s) s.cmd_queue (λ j w f. (ground (arith, w), f))
                v.queued);
      }

  -- a step of the client `i` that the server is busy with, which keeps the others as they are
  pub served-IsSound :
      (t : Handshake) (i : ℕ)
      → Serves s.server i
      → t.server ≡ s.server
      → t.cmd_queue ≡ s.cmd_queue
      → ((j : ℕ)
          → j ≢ i
          → (t.greeting j ≡ s.greeting j) × (t.name j ≡ s.name j) × (t.client j ≡ s.client j))
      → t.sockets_cmd ≡ s.sockets_cmd
      → t.sockets_data ≡ s.sockets_data
      → Busy index t s.server
      → s.client i ≢ apart
      → IsSound index remote t
  served-IsSound t i mine server queue others cmd dat busy begun = record {
    dials = λ j out. elim (ℕ_discrete j i) [
      | yes same ↦ subst (λ x. remote x ≡ true) (sym same) (v.dials i begun)
      | no ne ↦ v.dials j (λ k. out ((others j ne).2 ∙ k))
    ];
    listed = λ j w h.
        let ne : j ≢ i =
          λ k. h (subst (λ x. Serves x j) (sym server) (subst (Serves s.server) (sym k) mine)) in
        subst (In j) (sym queue)
          (v.listed j (sym (others j ne).2 ∙ w) (λ k. h (subst (λ x. Serves x j) (sym server) k)));
    rests = λ j h.
        let ne : j ≢ i =
          λ k. h (subst (λ x. Serves x j) (sym server) (subst (Serves s.server) (sym k) mine)) in
        let o = others j ne in
        Rests-same index s t j o.0 o.1 o.2 (λ k. ap (λ f. f (index j)) cmd)
          (λ k. ap (λ f. f (index j)) dat)
          (v.rests j (λ k. h (subst (λ x. Serves x j) (sym server) k)));
    busy = subst (Busy index t) (sym server) busy;
    queued = subst (Queued t) (sym queue) (
        Queued-same s t s.cmd_queue
          (λ j w free. (
            (others j (λ k. free (subst (Serves s.server) (sym k) mine))).2 ∙ w,
            λ k. free (subst (λ x. Serves x j) server k),
          ))
          v.queued);
  }

  pub receive_byte-IsSound :
      (i : ℕ) → s.client i ≡ waiting → s.greeting i ≡ true → IsSound index remote (receive_byte i s)
  unfolding receive_byte
  receive_byte-IsSound i w g = elim (Serves-cases s.server i) [
    | inr free ↦ absurd (false-true (sym (v.rests i free).silent ∙ g))
    | inl mine ↦
        let (eq, asked) = greeting-asking index s s.server i v.busy mine g in
        let a : Asked s i waiting = subst (Asked s i) w asked in
        served-IsSound (receive_byte i s) i mine refl refl
          (λ j ne. (assign_off s.greeting i false j ne, refl, assign_off s.client i greeted j ne))
          refl refl
          (subst (Busy index (receive_byte i s)) (sym eq) (
            subst (Asked (receive_byte i s) i) (sym (assign_at s.client i greeted))
              (assign_at s.greeting i false, a.1, a.2)))
          (λ k. waiting-apart (sym w ∙ k))
  ]

  pub send_name-IsSound : (i : ℕ) → s.client i ≡ greeted → IsSound index remote (send_name i s)
  unfolding send_name
  send_name-IsSound i w = elim (Serves-cases s.server i) [
    | inr free ↦ absurd ((v.rests i free).not_greeted w)
    | inl mine ↦
        let (eq, asked) = greeted-asking index s s.server i v.busy mine w in
        let a : Asked s i greeted = subst (Asked s i) w asked in
        served-IsSound (send_name i s) i mine refl refl
          (λ j ne. (refl, assign_off s.name i (some i) j ne, assign_off s.client i told j ne)) refl
          refl
          (subst (Busy index (send_name i s)) (sym eq) (
            subst (Asked (send_name i s) i) (sym (assign_at s.client i told))
              (a.0, assign_at s.name i (some i), a.2)))
          (λ k. greeted-apart (sym w ∙ k))
  ]

  pub connect_data-IsSound : (i : ℕ) → s.client i ≡ told → IsSound index remote (connect_data i s)
  unfolding connect_data
  connect_data-IsSound i w = elim (Serves-cases s.server i) [
    | inr free ↦ absurd ((v.rests i free).not_told w)
    | inl mine ↦
        let now = assign_at s.client i connected in
        let empty-append = λ (q : s.data_queue ≡ []). ap (λ l. l ++ i ∷ []) q in
        served-IsSound (connect_data i s) i mine refl refl
          (λ j ne. (refl, refl, assign_off s.client i connected j ne)) refl refl
          (elim (told-served index s s.server i v.busy mine w) [
            | inl (eq, a) ↦
                subst (Busy index (connect_data i s)) (sym eq)
                  (subst (Asked (connect_data i s) i) (sym now) (a.0, a.1, empty-append a.2))
            | inr (eq, b) ↦
                let q : Named s i told = subst (Named s i) w b.4 in
                subst (Busy index (connect_data i s)) (sym eq) (
                  b.0,
                  b.1,
                  b.2,
                  b.3,
                  subst (Named (connect_data i s) i) (sym now) (empty-append q),
                )
          ])
          (λ k. told-apart (sym w ∙ k))
  ]
