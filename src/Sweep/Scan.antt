-- ===== src/Sweep/Scan.antt =====
-- rust/src/sweep.rs, the first stage of `sweep_pass`: the scan of one entry.
use zinqq_kmp.Common.{
  ◌+◌, String, ◌=s◌, eq_iff, ◌≡◌, refl, sym, ◌∙◌, inl, inr, true, false, some, List, [], ◌∷◌, ◌++◌,
  is_empty, Assoc, contains, contains-append, Bool-cases, Option-cases, arith,
}
use zinqq_kmp.Vss.State.{Bytes}
use zinqq_kmp.CloseRecords.Record.{CloseRecord}
use zinqq_kmp.Sweep.State.{SpendableOutputDescriptor, SweepEngine, Env}
use zinqq_kmp.Sweep.Track.{is_wallet_owned_static_output}
use zinqq_kmp.Sweep.Collect.{EntryScan, decode_member, scan_member, scan_hex, scan_hexes}
use zinqq_kmp.Sweep.Scanned.{
  is_wallet_owned_keeps, WellFormed, Scanned, Scanned-duplicate, seen-Dead, seen_kept, All-snoc,
  Round,
}

module _ {V Blob Rest Signatures : Type 0} (encode : Assoc (CloseRecord V) → Blob)
    (env : Env Rest Signatures) where
  seen_grows :
      (seen : List String) (new hex : String)
      → contains seen hex ≡ true
      → contains (new ∷ seen) hex ≡ true
  unfolding contains
  seen_grows seen new hex h = ground arith

  only_one :
      (seen : List String) (new hex : String)
      → contains (new ∷ []) hex ≡ true
      → contains (new ∷ seen) hex ≡ true
  unfolding contains
  only_one seen new hex h = ground arith

  seen_one :
      (seen : List String) (new hex : String)
      → contains seen new ≡ true
      → contains (new ∷ []) hex ≡ true
      → contains seen hex ≡ true
  unfolding contains
  seen_one seen new hex old h = rw (← (eq_iff new hex).0 (ground (arith, eq_iff new hex))) old

  kept_snoc :
      (hexes kept : List String) (new : String)
      → contains hexes new ≡ true
      → ((hex : String) → contains kept hex ≡ true → contains hexes hex ≡ true)
      → (hex : String) → contains (kept ++ new ∷ []) hex ≡ true
      → contains hexes hex ≡ true
  unfolding contains
  kept_snoc hexes kept new inside h hex found = elim (Bool-cases (new =s hex)) [
    | inl same ↦ rw (← (eq_iff new hex).0 same) inside
    | inr other ↦ h hex (ground (arith, contains-append kept (new ∷ []) hex))
  ]

  not_empty_snoc {ℓ} : {A : Type ℓ} (xs : List A) (x : A) → is_empty (xs ++ x ∷ []) ≡ false
  not_empty_snoc [] x = refl
  not_empty_snoc (y ∷ xs) x = refl

  owned_round :
      (key hex : String) (before hexes : List String) (bytes : Bytes)
      (descriptor : SpendableOutputDescriptor Rest) (c : EntryScan Rest) (s : SweepEngine V Blob)
      → contains hexes hex ≡ true
      → decode_member env hex ≡ some (bytes, descriptor)
      → Scanned encode env before hexes c
      → Round encode env before hexes
          (hex ∷ [])
          c
          s
          (scan_member env key hex (some (bytes, descriptor)) c s)
  unfolding scan_member
  owned_round key hex before hexes bytes descriptor c s inside decodes h =
      elim (Bool-cases (is_wallet_owned_static_output env descriptor s).0) [
        | inl owned ↦ rw owned (record {
          scanned = record {
            seen_from =
                seen-Dead encode env before c.kept_hexes c.seen_descriptor_hex hex
                  (bytes, descriptor, decodes, inl (s, owned)) h.seen_from;
            kept_in = h.kept_in;
            decoded = h.decoded;
            in_step = h.in_step;
          };
          grows = seen_grows c.seen_descriptor_hex hex;
          taken = λ valid other found. only_one c.seen_descriptor_hex hex other found;
          same_disk = is_wallet_owned_keeps encode env descriptor s;
        })
        | inr foreign ↦ rw foreign (record {
          scanned = record {
            seen_from =
                seen_kept encode env before c.kept_hexes c.seen_descriptor_hex hex h.seen_from;
            kept_in = kept_snoc hexes c.kept_hexes hex inside h.kept_in;
            decoded =
                All-snoc encode env (WellFormed encode env) c.members
                  (record { bytes = bytes; descriptor = descriptor; entry_key = key }) h.decoded
                  (hex, decodes);
            in_step =
                not_empty_snoc c.members
                  (record { bytes = bytes; descriptor = descriptor; entry_key = key })
                ∙ sym (not_empty_snoc c.kept_hexes hex);
          };
          grows = seen_grows c.seen_descriptor_hex hex;
          taken = λ valid other found. only_one c.seen_descriptor_hex hex other found;
          same_disk = is_wallet_owned_keeps encode env descriptor s;
        })
      ]

  scan_hex-Round :
      (key hex : String) (before hexes : List String) (c : EntryScan Rest) (s : SweepEngine V Blob)
      → contains hexes hex ≡ true
      → Scanned encode env before hexes c
      → Round encode env before hexes (hex ∷ []) c s (scan_hex env key hex c s)
  unfolding scan_hex
  scan_hex-Round key hex before hexes c s inside h =
      elim (Bool-cases (contains c.seen_descriptor_hex hex)) [
        | inl seen ↦ rw seen (record {
          scanned = Scanned-duplicate encode env before hexes c (c.pruned + 1) h;
          grows = λ other found. found;
          taken = λ valid other found. seen_one c.seen_descriptor_hex hex other seen found;
          same_disk = refl;
        })
        | inr new ↦ rw new (elim (Option-cases (decode_member env hex)) [
          | inl undecodable ↦ rw undecodable (record {
            scanned = record {
              seen_from = h.seen_from;
              kept_in = h.kept_in;
              decoded = h.decoded;
              in_step = h.in_step;
            };
            grows = λ other found. found;
            taken = λ valid other found. cc;
            same_disk = refl;
          })
          | inr ((bytes, descriptor), decodes) ↦
              rw decodes (owned_round key hex before hexes bytes descriptor c s inside decodes h)
        ])
      ]

  none_taken :
      (hex : String) (seen : List String) → contains [] hex ≡ true → contains seen hex ≡ true
  unfolding contains
  none_taken hex seen h = cc

  head_in : (hex : String) (hexes : List String) → contains (hex ∷ hexes) hex ≡ true
  unfolding contains
  head_in hex hexes = ground (arith, eq_iff hex hex)

  tail_in :
      (hex other : String) (hexes : List String)
      → contains hexes other ≡ true
      → contains (hex ∷ hexes) other ≡ true
  unfolding contains
  tail_in hex other hexes h = ground arith

  chain :
      (before all hexes : List String) (hex : String) (c : EntryScan Rest) (s : SweepEngine V Blob)
      (r r' : EntryScan Rest × SweepEngine V Blob)
      → r.0.valid ≡ true
      → Round encode env before all (hex ∷ []) c s r
      → Round encode env before all hexes r.0 r.1 r'
      → Round encode env before all (hex ∷ hexes) c s r'
  unfolding contains
  chain before all hexes hex c s r r' valid one rest = record {
    scanned = rest.scanned;
    grows = λ other found. rest.grows other (one.grows other found);
    taken = λ still other found. elim (Bool-cases (hex =s other)) [
      | inl same ↦ rest.grows other (one.taken valid other (ground arith))
      | inr different ↦ rest.taken still other (ground arith)
    ];
    same_disk = rest.same_disk ∙ one.same_disk;
  }

  broken_off :
      (before all hexes : List String) (hex : String) (c : EntryScan Rest) (s : SweepEngine V Blob)
      (r : EntryScan Rest × SweepEngine V Blob)
      → r.0.valid ≡ false
      → Round encode env before all (hex ∷ []) c s r
      → Round encode env before all (hex ∷ hexes) c s r
  broken_off before all hexes hex c s r broken one = record {
    scanned = one.scanned;
    grows = one.grows;
    taken = λ valid other found. cc;
    same_disk = one.same_disk;
  }

  pub scan_hexes-Round :
      (key : String) (before all new : List String) (c : EntryScan Rest) (s : SweepEngine V Blob)
      → ((hex : String) → contains new hex ≡ true → contains all hex ≡ true)
      → Scanned encode env before all c
      → Round encode env before all new c s (scan_hexes env key new c s)
  unfolding scan_hexes
  scan_hexes-Round key before all [] c s inside h = record {
    scanned = h;
    grows = λ hex found. found;
    taken = λ valid hex found. none_taken hex c.seen_descriptor_hex found;
    same_disk = refl;
  }
  scan_hexes-Round key before all (hex ∷ hexes) c s inside h =
      let one = scan_hex-Round key hex before all c s (inside hex (head_in hex hexes)) h in
      elim (Bool-cases (scan_hex env key hex c s).0.valid) [
        | inl valid ↦ rw valid (
            chain before all hexes hex c s (scan_hex env key hex c s) _ valid one (
              scan_hexes-Round key before all hexes (scan_hex env key hex c s).0
                (scan_hex env key hex c s).1
                (λ other found. inside other (tail_in hex other hexes found)) one.scanned))
        | inr broken ↦
            rw broken (broken_off before all hexes hex c s (scan_hex env key hex c s) broken one)
      ]
