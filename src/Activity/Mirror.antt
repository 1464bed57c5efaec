-- ===== src/Activity/Mirror.antt =====
-- The buffers that the server has registered in app/src/main/cpp/lorie/cmdentrypoint.c are those of the
-- activity's renderer, app/src/main/cpp/lorie/renderer.c, once the messages on their way are read.
use mathlib.Core.Path.{subst}
use mathlib.Core.List.{append-nil}
use termux_x11_extra.Base.{
  ℕ, ◌+◌, ◌-◌, ◌≡◌, ◌≢◌, ◌⊎◌, inl, inr, Option, refl, sym, ap, ◌∙◌, true, not, ◌&&◌, ◌||◌, List, [],
  ◌∷◌, ◌++◌, none, some, arith, ◌==◌, if-elim, All, All-append,
}
use termux_x11_extra.Buffer.{LorieBuffer}
use termux_x11_extra.Channel.Link.{
  Link, Message, has_id, is_connected, register_buffer, unregister_buffer,
}
use termux_x11_extra.Renderer.{Renderer, drop_address, add_buffer, remove_buffer}
use termux_x11_extra.Renderer.Lists.{at, held}
use termux_x11_extra.Activity.Receive.{
  ReplyHost, Activity, set_shared_state, hang_up, connect, handle_reply,
}
use termux_x11_extra.Activity.Known.{
  times, known, one_if, IsSingle, times-remove_id, remove_buffer-known, remove_buffer-IsSingle,
  round-known, remove_all-known,
}
use termux_x11_extra.Activity.Ends.{
  Parcel, add_parcel, remove_parcel, Ends, EndsStep, registering, unregistering, delivering,
  IsNewFirst, rounding, hanging, failing, connecting, receive_parcel, read_first, parcels,
  ends_step, ends_run, IsFit, AreFit,
}

-- A count of an id after the messages.
abbrev pub after_way : ℕ → List Parcel → ℕ → ℕ
after_way i [] n = n
after_way i (add_parcel b ∷ ps) n = after_way i ps (n + one_if (b.desc.id == i))
after_way i (remove_parcel id ∷ ps) n = after_way i ps (n - one_if (id == i))

abbrev IsSingleParcel : Parcel → Type 0
IsSingleParcel (add_parcel b) = IsSingle b
IsSingleParcel (remove_parcel id) = Unit

-- For every id: the server has registered as many buffers with it as the activity's renderer will have
-- once the messages on their way are read.
abbrev pub IsSynchronous : Ends → Type 0
IsSynchronous e =
    (i : ℕ) → times i e.link.registered ≡ after_way i e.way (known i e.activity.renderer)

-- One end has no connection, or the lists agree. An end without a connection has no buffer. What is
-- added has one reference.
abbrev pub AreMirrored : Ends → Type 0
AreMirrored e =
    ((e.link.conn ≡ none) ⊎ ((e.activity.conn ≡ none) ⊎ IsSynchronous e))
    × ((e.link.registered ≡ []) ⊎ (e.link.conn ≢ none))
    × (((i : ℕ) → known i e.activity.renderer ≡ 0) ⊎ (e.activity.conn ≢ none))
    × All IsSingle e.activity.renderer.added
    × All IsSingleParcel e.way

after_way-append :
    (i : ℕ) (ps qs : List Parcel) (n : ℕ)
    → after_way i (ps ++ qs) n ≡ after_way i qs (after_way i ps n)
after_way-append i [] qs n = refl
after_way-append i (add_parcel b ∷ ps) qs n = after_way-append i ps qs (n + one_if (b.desc.id == i))
after_way-append i (remove_parcel id ∷ ps) qs n = after_way-append i ps qs (n - one_if (id == i))

drop_address-new : (a : ℕ) (bs : List LorieBuffer) → at a bs ≡ 0 → drop_address a bs ≡ bs
drop_address-new a [] new = refl
drop_address-new a (b ∷ bs) new = ground (arith, drop_address-new a bs)

add_buffer-known :
    (i : ℕ) (b : LorieBuffer) (r : Renderer)
    → held b.address r ≡ 0
    → known i r + one_if (b.desc.id == i) ≡ known i (add_buffer b r)
unfolding add_buffer
add_buffer-known i b r new =
    rw
      (
        drop_address-new b.address r.added (omega (arith, new)),
        drop_address-new b.address r.buffers (omega (arith, new)),
      )
      (ground arith)

hang_up-known :
    (host : ReplyHost) (a : Activity) (i : ℕ)
    → let r = (hang_up host a).0.renderer in (known i r ≡ 0) × (r.added ≡ [])
unfolding hang_up set_shared_state
hang_up-known host a i =
    remove_all-known i host.gl (set_shared_state host.gl none a.renderer).0
      (round-known i host.gl (record a.renderer { pending_state = none; state_changed = true })).1

connect-renderer :
    (host : ReplyHost) (fd : ℕ) (a : Activity)
    → a.conn ≡ none
    → (connect host (some fd) a).0.renderer ≡ a.renderer
unfolding connect
connect-renderer host fd a alone = rw alone refl

hang_up-conn : (host : ReplyHost) (a : Activity) → (hang_up host a).0.conn ≡ none
unfolding hang_up
hang_up-conn host a = refl

connected-some : (o : Option ℕ) → is_connected o ≡ true → o ≢ none
connected-some none is e = cc
connected-some (some fd) is e = cc

module _ (host : ReplyHost) where
  registering-AreMirrored :
      (b : LorieBuffer) (e : Ends)
      → IsSingle b
      → AreMirrored e
      → AreMirrored (ends_step host (registering b) e)
  unfolding ends_step register_buffer
  registering-AreMirrored b e one (same, empty, unknown, ones, way) =
      if-elim
        (λ (r : Link × List Message).
          AreMirrored (record e { link = r.0; way = e.way ++ parcels (add_parcel b) r.1 }))
        (not (is_connected e.link.conn) || has_id b.desc.id e.link.registered) _ _
        (λ _.
          subst (λ w. AreMirrored (record e { way = w })) (sym (append-nil e.way))
            (same, empty, unknown, ones, way))
        (λ free. (
          elim same [
            | inl off ↦ inl off
            | inr (inl off) ↦ inr (inl off)
            | inr (inr both) ↦ inr (
                inr (λ i. ground (
                  arith,
                  both i,
                  after_way-append i e.way (add_parcel b ∷ []) (known i e.activity.renderer),
                )))
          ],
          inr (connected-some e.link.conn (ground (arith, free))),
          unknown,
          ones,
          All-append IsSingleParcel e.way (add_parcel b ∷ []) way (one, tt),
        ))

  unregistering-AreMirrored :
      (id : ℕ) (e : Ends) → AreMirrored e → AreMirrored (ends_step host (unregistering id) e)
  unfolding ends_step unregister_buffer
  unregistering-AreMirrored id e (same, empty, unknown, ones, way) =
      if-elim
        (λ (r : Link × List Message).
          AreMirrored (record e { link = r.0; way = e.way ++ parcels (remove_parcel id) r.1 }))
        (has_id id e.link.registered && is_connected e.link.conn) _ _
        (λ found. (
          elim same [
            | inl off ↦ inl off
            | inr (inl off) ↦ inr (inl off)
            | inr (inr both) ↦ inr (
                inr (λ i. omega (
                  arith,
                  both i,
                  times-remove_id i id e.link.registered,
                  after_way-append i e.way (remove_parcel id ∷ []) (known i e.activity.renderer),
                )))
          ],
          inr (connected-some e.link.conn (ground (arith, found))),
          unknown,
          ones,
          All-append IsSingleParcel e.way (remove_parcel id ∷ []) way (tt, tt),
        ))
        (λ _.
          subst (λ w. AreMirrored (record e { way = w })) (sym (append-nil e.way))
            (same, empty, unknown, ones, way))

  -- The activity reads a message, which its renderer knows as the count says.
  read-AreMirrored :
      (link : Link) (p : Parcel) (ps : List Parcel) (a : Activity) (r : Renderer)
      → a.conn ≢ none
      → ((i : ℕ) → after_way i (p ∷ []) (known i a.renderer) ≡ known i r)
      → All IsSingle r.added
      → AreMirrored (record { link = link; way = p ∷ ps; activity = a })
      → AreMirrored (record { link = link; way = ps; activity = record a { renderer = r } })
  read-AreMirrored link p ps a r on count ones' (same, empty, unknown, ones, (one, way)) = (
    elim same [
      | inl off ↦ inl off
      | inr (inl off) ↦ absurd (on off)
      | inr (inr both) ↦ inr (
          inr (λ i.
            both i
            ∙ after_way-append i (p ∷ []) ps (known i a.renderer)
            ∙ ap (after_way i ps) (count i)))
    ],
    empty,
    inr on,
    ones',
    way,
  )

  received-AreMirrored :
      (link : Link) (p : Parcel) (ps : List Parcel) (a : Activity)
      → a.conn ≢ none
      → IsNewFirst host (p ∷ ps) a.renderer
      → AreMirrored (record { link = link; way = p ∷ ps; activity = a })
      → AreMirrored (record { link = link; way = ps; activity = receive_parcel host p a })
  unfolding handle_reply
  received-AreMirrored link (add_parcel b) ps a on new (same, empty, unknown, ones, (one, way)) =
      let a' : Activity = record a { buffer = some b } in
      read-AreMirrored link (add_parcel b) ps a' (add_buffer b a.renderer) on
        (λ i. add_buffer-known i b a.renderer new)
        (subst (λ bs. All IsSingle (b ∷ bs))
          (sym (drop_address-new b.address a.renderer.added (omega (arith, new)))) (one, ones))
        (same, empty, unknown, ones, (one, way))
  received-AreMirrored link (remove_parcel id) ps a on new (same, empty, unknown, ones, way) =
      read-AreMirrored link (remove_parcel id) ps a (remove_buffer host.gl id a.renderer).0 on
        (λ i. sym (remove_buffer-known i id host.gl a.renderer ones))
        (remove_buffer-IsSingle id host.gl a.renderer ones) (same, empty, unknown, ones, way)

  abbrev IsReadAs : Link → Parcel → List Parcel → Activity → Option ℕ → Type 0
  IsReadAs link p ps a o =
      let (way, a') = read_first host o p ps a in
      AreMirrored (record { link = link; way = way; activity = a' })

  delivered :
      (link : Link) (ps : List Parcel) (a : Activity) (o : Option ℕ)
      → a.conn ≡ o
      → IsNewFirst host ps a.renderer
      → AreMirrored (record { link = link; way = ps; activity = a })
      → AreMirrored (ends_step host delivering (record { link = link; way = ps; activity = a }))
  unfolding ends_step
  delivered link [] a o is new mirrored = mirrored
  delivered link (p ∷ ps) a none is new mirrored = subst (IsReadAs link p ps a) (sym is) mirrored
  delivered link (p ∷ ps) a (some fd) is new mirrored = subst (IsReadAs link p ps a) (sym is) (
      received-AreMirrored link p ps a (λ e. connected-some a.conn (ap is_connected is) e) new
        mirrored)

  rounding-AreMirrored : (e : Ends) → AreMirrored e → AreMirrored (ends_step host rounding e)
  unfolding ends_step
  rounding-AreMirrored e (same, empty, unknown, ones, way) =
      let r = e.activity.renderer in
      (
        elim same [
          | inl off ↦ inl off
          | inr (inl off) ↦ inr (inl off)
          | inr (inr both) ↦
              inr (inr (λ i. both i ∙ ap (after_way i e.way) (sym (round-known i host.gl r).0)))
        ],
        empty,
        elim unknown [
          | inl zeros ↦ inl (λ i. (round-known i host.gl r).0 ∙ zeros i)
          | inr on ↦ inr on
        ],
        subst (All IsSingle) (sym (round-known 0 host.gl r).1) tt,
        way,
      )

  hanging-AreMirrored : (e : Ends) → AreMirrored e → AreMirrored (ends_step host hanging e)
  unfolding ends_step
  hanging-AreMirrored e (same, empty, unknown, ones, way) =
      let gone = hang_up-known host e.activity in
      (
        inr (inl (hang_up-conn host e.activity)),
        empty,
        inl (λ i. (gone i).0),
        subst (All IsSingle) (sym (gone 0).1) tt,
        way,
      )

  connecting-AreMirrored :
      (fd : ℕ) (e : Ends)
      → e.link.conn ≡ none
      → e.activity.conn ≡ none
      → AreMirrored e
      → AreMirrored (ends_step host (connecting fd) e)
  unfolding ends_step
  connecting-AreMirrored fd e off alone (same, empty, unknown, ones, way) =
      let registered : e.link.registered ≡ [] = elim empty [
        | inl none_ ↦ none_
        | inr on ↦ absurd (on off)
      ] in
      let zeros : (i : ℕ) → known i e.activity.renderer ≡ 0 = elim unknown [
        | inl zeros ↦ zeros
        | inr on ↦ absurd (on alone)
      ] in
      let kept = connect-renderer host fd e.activity alone in
      (
        inr (inr (λ i. ap (times i) registered ∙ sym (ap (known i) kept ∙ zeros i))),
        inl registered,
        inl (λ i. ap (known i) kept ∙ zeros i),
        subst (λ (r : Renderer). All IsSingle r.added) (sym kept) ones,
        tt,
      )

  ends_step-AreMirrored :
      (p : EndsStep) (e : Ends) → IsFit host p e → AreMirrored e → AreMirrored (ends_step host p e)
  unfolding ends_step
  ends_step-AreMirrored (registering b) e fit mirrored = registering-AreMirrored b e fit mirrored
  ends_step-AreMirrored (unregistering id) e fit mirrored = unregistering-AreMirrored id e mirrored
  ends_step-AreMirrored delivering e fit mirrored =
      delivered e.link e.way e.activity e.activity.conn refl fit mirrored
  ends_step-AreMirrored rounding e fit mirrored = rounding-AreMirrored e mirrored
  ends_step-AreMirrored hanging e fit mirrored = hanging-AreMirrored e mirrored
  ends_step-AreMirrored failing e fit (same, empty, unknown, ones, way) =
      (inl refl, inl refl, unknown, ones, way)
  ends_step-AreMirrored (connecting fd) e (off, alone) mirrored =
      connecting-AreMirrored fd e off alone mirrored

  -- In any sequence of registrations, removals, deliveries in their order, rounds of the renderer's
  -- thread, ends of the connection that the activity and the server see each by itself, and new
  -- connections, where each buffer is received with one reference
  -- at an address that is in no list, and a new connection comes after both
  -- have seen the end of the old one: while both have the connection, the server has registered as many
  -- buffers with any id as the renderer can find once the messages on their way are read; and a side
  -- without the connection has no buffer.
  pub ends_run-AreMirrored :
      (ps : List EndsStep) (e : Ends)
      → AreFit host ps e
      → AreMirrored e
      → AreMirrored (ends_run host ps e)
  unfolding ends_run
  ends_run-AreMirrored [] e fit mirrored = mirrored
  ends_run-AreMirrored (p ∷ ps) e (fit, fits) mirrored =
      ends_run-AreMirrored ps (ends_step host p e) fits (ends_step-AreMirrored p e fit mirrored)
