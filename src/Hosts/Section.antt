-- ===== src/Hosts/Section.antt =====
-- What `write_to` makes of a file.
use mathlib.Core.List.{append_assoc, append-nil}
use innernet.Prelude.{
  suc, String, ◌≡◌, refl, sym, ap, ◌∙◌, subst, ◌≢◌, inl, inr, Bool, true, false, none, some, List,
  [], ◌∷◌, ◌++◌, arith, ltb, Bool-cases, ◌==◌, nat_eq, string_eq, option_eq, length, length-append,
  any,
}
use innernet.Net.{IpAddr}
use innernet.Hosts.{
  HostsBuilder, Text, position, take, drop, lines, begin_marker, end_marker, entries, section,
  is_marker, with_blank, put, place, write_to,
}

position-hit :
    (p : String → Bool) (xs : List String) (x : String) (rest : List String)
    → any p xs ≡ false
    → p x ≡ true
    → position p (xs ++ x ∷ rest) ≡ some (length xs)
unfolding position
position-hit p [] x rest quiet hit = ground (arith, hit)
position-hit p (y ∷ ys) x rest quiet hit =
    let deeper = position-hit p ys x rest (ground arith) hit in
    let miss : p y ≡ false = ground arith in ground (arith, deeper, miss)

position-miss : (p : String → Bool) (xs : List String) → any p xs ≡ false → position p xs ≡ none
unfolding position
position-miss p [] quiet = refl
position-miss p (y ∷ ys) quiet =
    let deeper = position-miss p ys (ground arith) in
    let miss : p y ≡ false = ground arith in ground (arith, deeper, miss)

take-append : (xs ys : List String) → take (length xs) (xs ++ ys) ≡ xs
unfolding take
take-append [] ys = refl
take-append (x ∷ xs) ys = ap (λ zs. x ∷ zs) (take-append xs ys)

drop-append : (xs ys : List String) → drop (length xs) (xs ++ ys) ≡ ys
unfolding drop
drop-append [] ys = refl
drop-append (x ∷ xs) ys = drop-append xs ys

drop_past :
    (xs : List String) (y : String) (ys : List String) → drop (suc (length xs)) (xs ++ y ∷ ys) ≡ ys
unfolding drop
drop_past [] y ys = refl
drop_past (x ∷ xs) y ys = drop_past xs y ys

-- The slices of `put` at the end of a part.
put-append :
    (t : Text) (b : HostsBuilder) (xs ys : List String)
    → put t b (length xs) (xs ++ ys) ≡ lines (xs ++ section t b ++ ys)
put-append t b xs ys = rw (take-append xs ys, drop-append xs ys) refl

-- No line is a marker of the section.
abbrev pub HasNoMarker : Text → HostsBuilder → List String → Type 0
HasNoMarker t b xs =
    (any (is_marker t (begin_marker t b)) xs ≡ false)
    × (any (is_marker t (end_marker t b)) xs ≡ false)

-- In a file with a line `x` that marks the begin of the section and, further down, a line `y` that
-- marks its end, each the first of its kind, just the lines from `x` to `y` are replaced by the new
-- section, or removed if it has no entry; the lines before and after stay as they are.
pub write_to-replaces :
    (t : Text) (b : HostsBuilder) (before old_section behind : List String) (x y : String)
    → HasNoMarker t b before
    → any (is_marker t (end_marker t b)) (x ∷ old_section) ≡ false
    → is_marker t (begin_marker t b) x ≡ true
    → is_marker t (end_marker t b) y ≡ true
    → write_to t b (before ++ x ∷ (old_section ++ y ∷ behind))
      ≡ lines (before ++ section t b ++ behind)
unfolding write_to
write_to-replaces t b before mid behind x y (no_begin, no_end) none_between begins ends =
    let p = is_marker t (begin_marker t b) in
    let q = is_marker t (end_marker t b) in
    let file : List String = before ++ x ∷ (mid ++ y ∷ behind) in
    let head : List String = before ++ x ∷ mid in
    let regroup : head ++ y ∷ behind ≡ file = append_assoc before (x ∷ mid) (y ∷ behind) in
    let first : position p file ≡ some (length before) =
      position-hit p before x (mid ++ y ∷ behind) no_begin begins in
    let quiet : any q head ≡ false = any-append q before (x ∷ mid) no_end none_between in
    let final : position q file ≡ some (length head) =
      subst (λ f. position q f ≡ some (length head)) regroup
        (position-hit q head y behind quiet ends) in
    let cut : drop (suc (length head)) file ≡ behind =
      subst (λ f. drop (suc (length head)) f ≡ behind) regroup (drop_past head y behind) in
    let kept : take (length before) file ≡ before = take-append before (x ∷ (mid ++ y ∷ behind)) in
    let in_order : ltb (suc (length head)) (length before) ≡ false =
      ground (arith, length-append before (x ∷ mid)) in
    let placed : place t b file (some (length before)) (some (length head))
        ≡ put t b (length before) (take (length before) file ++ drop (suc (length head)) file) =
      ground (arith, in_order) in
    subst (λ o. place t b file o (position q file) ≡ lines (before ++ section t b ++ behind))
      (sym first)
      (subst
        (λ o. place t b file (some (length before)) o ≡ lines (before ++ section t b ++ behind))
        (sym final)
        (placed
          ∙ ap (λ xs. put t b (length before) (xs ++ drop (suc (length head)) file)) kept
          ∙ ap (λ ys. put t b (length before) (before ++ ys)) cut
          ∙ put-append t b before behind))
  where
    any-append :
        (r : String → Bool) (xs ys : List String)
        → any r xs ≡ false
        → any r ys ≡ false
        → any r (xs ++ ys) ≡ false
    any-append r [] ys u v = v
    any-append r (z ∷ zs) ys u v =
        let deeper = any-append r zs ys (ground arith) v in ground (arith, deeper)

with_blank-HasNoMarker :
    (t : Text) (b : HostsBuilder) (xs : List String)
    → HasNoMarker t b xs
    → HasNoMarker t b ("" ∷ [])
    → HasNoMarker t b (with_blank xs)
unfolding with_blank
with_blank-HasNoMarker t b [] h blank = h
with_blank-HasNoMarker t b (x ∷ []) h blank = elim (Bool-cases (x == "")) [
  | inl e ↦ rw e h
  | inr e ↦ rw e (ground arith, ground arith)
]
with_blank-HasNoMarker t b (x ∷ (y ∷ ys)) h blank =
    let deeper = with_blank-HasNoMarker t b (y ∷ ys) (ground arith, ground arith) blank in
    (ground (arith, deeper.0), ground (arith, deeper.1))

write_to-appends :
    (t : Text) (b : HostsBuilder) (old : List String)
    → HasNoMarker t b old
    → write_to t b old ≡ lines (with_blank old ++ section t b)
unfolding write_to
write_to-appends t b old (no_begin, no_end) =
    let new = with_blank old in
    let whole : put t b (length new) new ≡ lines (new ++ section t b) =
      subst (λ xs. put t b (length new) xs ≡ lines (new ++ section t b)) (append-nil new)
        (put-append t b new [] ∙ ap lines (append-nil (new ++ section t b))) in
    rw
      (
        position-miss (is_marker t (begin_marker t b)) old no_begin,
        position-miss (is_marker t (end_marker t b)) old no_end,
      )
      whole

-- To a file without the markers the section is appended, after a blank line. If the section has
-- entries, none of which is read as its end, then writing another one of the same tag to the new file
-- replaces the first: the file is as if only the second had been written.
write_to-again :
    (t : Text) (b b' : HostsBuilder) (old : List String)
    → HasNoMarker t b old
    → HasNoMarker t b ("" ∷ [])
    → b.tag ≡ b'.tag
    → b.hostname_map ≢ []
    → any (is_marker t (end_marker t b)) (begin_marker t b ∷ entries t b.hostname_map) ≡ false
    → is_marker t (begin_marker t b) (begin_marker t b) ≡ true
    → is_marker t (end_marker t b) (end_marker t b) ≡ true
    → (new : List String) × (write_to t b old ≡ lines new)
      × (write_to t b' new ≡ lines (with_blank old ++ section t b'))
      × (write_to t b' new ≡ write_to t b' old)
unfolding begin_marker end_marker
write_to-again t b b' old clear blank same_tag some_entry plain begins ends =
    let part : section t b ≡ begin_marker t b ∷ (entries t b.hostname_map ++ end_marker t b ∷ []) =
      section-cons b.hostname_map refl in
    let clear' : HasNoMarker t b' old =
      subst (λ tag. HasNoMarker t (record b' { tag = tag }) old) same_tag clear in
    let before = with_blank-HasNoMarker t b old clear blank in
    let replaced =
      write_to-replaces t b' (with_blank old) (entries t b.hostname_map) [] (begin_marker t b)
        (end_marker t b)
        (subst (λ tag. HasNoMarker t (record b' { tag = tag }) (with_blank old)) same_tag before)
        (subst
          (λ tag.
            any (is_marker t (end_marker t (record b' { tag = tag })))
              (begin_marker t b ∷ entries t b.hostname_map)
            ≡ false)
          same_tag plain)
        (subst
          (λ tag. is_marker t (begin_marker t (record b' { tag = tag })) (begin_marker t b) ≡ true)
          same_tag begins)
        (subst (λ tag. is_marker t (end_marker t (record b' { tag = tag })) (end_marker t b) ≡ true)
          same_tag ends) in
    let second : write_to t b' (with_blank old ++ section t b)
        ≡ lines (with_blank old ++ section t b') =
      subst (λ xs. write_to t b' (with_blank old ++ xs) ≡ lines (with_blank old ++ section t b'))
        (sym part) (replaced ∙ ap lines (append-nil (with_blank old ++ section t b'))) in
    (
      with_blank old ++ section t b,
      write_to-appends t b old clear,
      second,
      second ∙ sym (write_to-appends t b' old clear'),
    )
  where
    section-cons :
        (m : List (IpAddr × List String))
        → b.hostname_map ≡ m
        → section t b ≡ begin_marker t b ∷ (entries t b.hostname_map ++ end_marker t b ∷ [])
    section-cons [] e = absurd (some_entry e)
    section-cons (x ∷ xs) e =
        let back : record b { hostname_map = x ∷ xs } ≡ b =
          ap (λ m. record b { hostname_map = m }) (sym e) in
        subst
          (λ c. section t c ≡ begin_marker t c ∷ (entries t c.hostname_map ++ end_marker t c ∷ []))
          back refl
