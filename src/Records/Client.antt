-- ===== src/Records/Client.antt =====
-- What a client of the library knows that only listens to its calls (src/libnethogs.h,
-- src/libnethogs.cpp): NETHOGS_APP_ACTION_SET puts a record under its record_id, and
-- NETHOGS_APP_ACTION_REMOVE takes it away.
use nethogs.Base.{
  ℕ, ◌≤◌, ◌<◌, ◌≡◌, ◌≢◌, ◌∙◌, sym, Option, none, some, List, [], ◌∷◌, arith, ap, ◌⊎◌, inl, inr,
  ◌==◌, Bool-cases, refl,
}
use nethogs.Records.{NethogsMonitorRecord, NethogsRecordMap, Action, action_set, action_remove, put}
use nethogs.Records.Visits.{put-here, put-elsewhere}

-- The records that a client keeps, by their record_id.
abbrev pub Client : Type 0
Client = ℕ → Option NethogsMonitorRecord

abbrev pub listen : Action → Client → Client
listen (action_set e) c = put c e.record_id (some e)
listen (action_remove e) c = put c e.record_id none

unfoldable pub listen_all : List Action → Client → Client
listen_all [] c = c
listen_all (a ∷ calls) c = listen_all calls (listen a c)

-- A record but for its device, of whose change nobody is told.
abbrev pub reported : NethogsMonitorRecord → NethogsMonitorRecord
reported e = record e { device_name = [] }

-- The client has the records of the map, each under an id of its own, and no others.
pub record Mirrors (m : NethogsRecordMap) (last_id : ℕ) (c : Client) : Type 0 where
  pub numbered : (a : ℕ) (e : NethogsMonitorRecord) → m a ≡ some e → e.record_id ≤ last_id
  pub own :
      (a b : ℕ) (e f : NethogsMonitorRecord)
      → m a ≡ some e
      → m b ≡ some f
      → e.record_id ≡ f.record_id
      → a ≡ b
  pub told :
      (a : ℕ) (e : NethogsMonitorRecord)
      → m a ≡ some e
      → (x : NethogsMonitorRecord) × (c e.record_id ≡ some x) × (reported x ≡ reported e)
  pub listed :
      (i : ℕ) (x : NethogsMonitorRecord)
      → c i ≡ some x
      → (a : ℕ) × (e : NethogsMonitorRecord) × (m a ≡ some e) × (e.record_id ≡ i)

put-none :
    (m : NethogsRecordMap) (a b : ℕ) (e : NethogsMonitorRecord)
    → put m a none b ≡ some e
    → (a ≢ b) × (m b ≡ some e)
put-none m a b e h = elim (Bool-cases (a == b)) [
  | inl here ↦ absurd (ground arith)
  | inr there ↦ (ground arith, rw there at h)
]

once :
    (m : NethogsRecordMap) (b : ℕ) (e f : NethogsMonitorRecord)
    → m b ≡ some e
    → m b ≡ some f
    → e ≡ f
once m b e f h k = ground arith

pub put-some :
    (m : NethogsRecordMap) (a b : ℕ) (e f : NethogsMonitorRecord)
    → put m a (some e) b ≡ some f
    → ((a ≡ b) × (f ≡ e)) ⊎ ((a ≢ b) × (m b ≡ some f))
put-some m a b e f h = elim (Bool-cases (a == b)) [
  | inl here ↦ inl (ground arith, ground arith)
  | inr there ↦ inr (ground arith, rw there at h)
]

-- A record is erased and the client is told so.
pub erased :
    (m : NethogsRecordMap) (n a : ℕ) (c : Client) (e : NethogsMonitorRecord)
    → m a ≡ some e
    → Mirrors m n c
    → Mirrors (put m a none) n (put c e.record_id none)
erased m n a c e h r = record {
  numbered = λ b f k. r.numbered b f (put-none m a b f k).1;
  own = λ b d f g k l. r.own b d f g (put-none m a b f k).1 (put-none m a d g l).1;
  told = λ b f k.
      let (ne, old) = put-none m a b f k in
      let (x, t, s) = r.told b f old in
      (x, put-elsewhere c e.record_id f.record_id none (λ q. ne (r.own a b e f h old q)) ∙ t, s);
  listed = λ i x k.
      let (ne, old) = put-none c e.record_id i x k in
      let (b, f, t, s) = r.listed i x old in
      (
        b,
        f,
        put-elsewhere m a b none (λ q. ne (ap (λ u. u.record_id) (once m b e f (rw q at h) t) ∙ s))
            ∙ t,
        s,
      );
}

-- There is nothing to erase.
pub absent :
    (m : NethogsRecordMap) (n a : ℕ) (c : Client)
    → Mirrors m n c
    → m a ≡ none
    → Mirrors (put m a none) n c
absent m n a c r h = record {
  numbered = λ b f k. r.numbered b f (put-none m a b f k).1;
  own = λ b d f g k l. r.own b d f g (put-none m a b f k).1 (put-none m a d g l).1;
  told = λ b f k. r.told b f (put-none m a b f k).1;
  listed = λ i x k.
      let (b, f, t, s) = r.listed i x k in
      (
        b,
        f,
        put-elsewhere m a b none (λ q. let h' : m b ≡ none = rw q at h in ground arith) ∙ t,
        s,
      );
}

-- A record is made, under an id that is new, and the client is told so.
pub made :
    (m : NethogsRecordMap) (n a : ℕ) (c : Client) (e : NethogsMonitorRecord)
    → Mirrors m n c
    → m a ≡ none
    → n < e.record_id
    → Mirrors (put m a (some e)) e.record_id (put c e.record_id (some e))
made m n a c e r h above = record {
  numbered = λ b f k. elim (put-some m a b e f k) [
    | inl (here, same) ↦ rw same (omega arith)
    | inr (there, old) ↦ omega (arith, r.numbered b f old)
  ];
  own = λ b d f g k l q. elim (put-some m a b e f k) [
    | inl (here, same) ↦ elim (put-some m a d e g l) [
      | inl (also, same') ↦ sym here ∙ also
      | inr (there, old) ↦ absurd (omega (arith, r.numbered d g old, q, ap (λ u. u.record_id) same))
    ]
    | inr (there, old) ↦ elim (put-some m a d e g l) [
      | inl (also, same') ↦
          absurd (omega (arith, r.numbered b f old, q, ap (λ u. u.record_id) same'))
      | inr (also, old') ↦ r.own b d f g old old' q
    ]
  ];
  told = λ b f k. elim (put-some m a b e f k) [
    | inl (here, same) ↦ (e, rw same (put-here c e.record_id (some e)), rw same refl)
    | inr (there, old) ↦
        let (x, t, s) = r.told b f old in
        (
          x,
          put-elsewhere c e.record_id f.record_id (some e)
                (λ q. let k' = r.numbered b f old in absurd (omega arith))
              ∙ t,
          s,
        )
  ];
  listed = λ i x k. elim (put-some c e.record_id i e x k) [
    | inl (here, same) ↦ (a, e, put-here m a (some e), here)
    | inr (there, old) ↦
        let (b, f, t, s) = r.listed i x old in
        (
          b,
          f,
          put-elsewhere m a b (some e) (λ q. let h' : m b ≡ none = rw q at h in ground arith) ∙ t,
          s,
        )
  ];
}

-- A record is written over, and the client is told so unless it is the same but for the device.
module _ (m : NethogsRecordMap) (n a : ℕ) (c : Client) (old_entry e : NethogsMonitorRecord)
    (r : Mirrors m n c) (h : m a ≡ some old_entry)
    (same_id : e.record_id ≡ old_entry.record_id) where
  rewritten :
      (c' : Client)
      → ((x : NethogsMonitorRecord) × (c' e.record_id ≡ some x) × (reported x ≡ reported e))
      → ((i : ℕ) → e.record_id ≢ i → c' i ≡ c i)
      → Mirrors (put m a (some e)) n c'
  rewritten c' here' there' = record {
    numbered = λ b f k. elim (put-some m a b e f k) [
      | inl (here, same) ↦ rw (same, same_id) (r.numbered a old_entry h)
      | inr (there, old) ↦ r.numbered b f old
    ];
    own = λ b d f g k l q. elim (put-some m a b e f k) [
      | inl (here, same) ↦ elim (put-some m a d e g l) [
        | inl (also, same') ↦ sym here ∙ also
        | inr (there, old) ↦ sym here ∙ r.own a d old_entry g h old (sym same_id ∙ rw same at q)
      ]
      | inr (there, old) ↦ elim (put-some m a d e g l) [
        | inl (also, same') ↦ r.own b a f old_entry old h ((rw same' at q) ∙ same_id) ∙ also
        | inr (also, old') ↦ r.own b d f g old old' q
      ]
    ];
    told = λ b f k. elim (put-some m a b e f k) [
      | inl (here, same) ↦ rw same here'
      | inr (there, old) ↦
          let (x, t, s) = r.told b f old in
          (
            x,
            there' f.record_id (λ q. there (r.own a b old_entry f h old (sym same_id ∙ q))) ∙ t,
            s,
          )
    ];
    listed = λ i x k. elim (Bool-cases (e.record_id == i)) [
      | inl now ↦ (a, e, put-here m a (some e), ground arith)
      | inr other ↦
          let ne : e.record_id ≢ i = ground arith in
          let (b, f, t, s) = r.listed i x (sym (there' i ne) ∙ k) in
          (
            b,
            f,
            put-elsewhere m a b (some e) (λ q.
                  ne (same_id ∙ ap (λ u. u.record_id) (once m b old_entry f (rw q at h) t) ∙ s))
                ∙ t,
            s,
          )
    ];
  }

  pub changed : Mirrors (put m a (some e)) n (put c e.record_id (some e))
  changed =
      rewritten (put c e.record_id (some e)) (e, put-here c e.record_id (some e), refl)
        (λ i ne. put-elsewhere c e.record_id i (some e) ne)

  pub unchanged : reported old_entry ≡ reported e → Mirrors (put m a (some e)) n c
  unchanged s =
      let (x, t, k) = r.told a old_entry h in rewritten c (x, rw same_id t, k ∙ s) (λ i ne. refl)
