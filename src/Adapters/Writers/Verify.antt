-- ===== src/Adapters/Writers/Verify.antt =====
-- What `--verify-cv` makes sure of.
use pid_ctl.Prelude.{
  ℕ, ◌≡◌, refl, arith, true, false, none, some, Option-cases, Bool-cases, inl, inr, ◌⊎◌, [], ◌∷◌,
  ◌++◌,
}
use pid_ctl.Float.{Float, IsIeee, ◌≺◌, one}
use pid_ctl.App.Snapshot.{IoError}
use pid_ctl.App.StateStore.{Text, IoResult, ok, err}
use pid_ctl.Adapters.Readers.{number_in, trim}
use pid_ctl.Adapters.Writers.{FloatText, Outside, FileCvSink, matches, read_back, write_file_cv}

pub IoResult-cases :
    {A : Type 0} (r : IoResult A) → ((e : IoError) × (r ≡ err e)) ⊎ ((a : A) × (r ≡ ok a))
IoResult-cases (ok a) = inr (a, refl)
IoResult-cases (err e) = inl (e, refl)

module _ {F : Type 0} ⦃float : Float F⦄ (laws : IsIeee F) (texts : FloatText F) {D : Type 0}
    (out : Outside D) where
  open float use {minus, times, round, abs}

  -- How far the two numbers are apart, when each is rounded to a whole number of units of the
  -- precision.
  abbrev pub rounded_gap : ℕ → F → F → F
  rounded_gap precision cv v = abs (
      minus (round (times cv (texts.power_of_ten precision)))
        (round (times v (texts.power_of_ten precision))))

  -- They are less than one unit apart, or the gap is NaN.
  abbrev pub SameRounded : ℕ → F → F → Type 0
  SameRounded precision cv v =
      (rounded_gap precision cv v ≺ one)
      ⊎ (float.le (rounded_gap precision cv v) (rounded_gap precision cv v) ≡ false)

  -- The file holds a text that reads as a float that rounds like the output, or the gap between the
  -- two is NaN.
  abbrev pub HoldsOutput : FileCvSink → F → D → Type 0
  HoldsOutput s cv d =
      (content : Text) × (v : F) × (out.read_file s.path d ≡ ok content)
      × (texts.parse (trim content) ≡ some v)
      × SameRounded s.precision cv v

  number_in-eq :
      (content : Text) (v : F)
      → number_in texts.parse content ≡ ok v
      → texts.parse (trim content) ≡ some v
  unfolding number_in
  number_in-eq content v e = ground arith

  matches-SameRounded :
      (precision : ℕ) (cv v : F)
      → matches texts out precision cv v ≡ none
      → SameRounded precision cv v
  unfolding matches
  matches-SameRounded precision cv v e =
      let gap = rounded_gap precision cv v in
      elim (Bool-cases (float.le gap gap)) [
        | inr nan ↦ inr nan
        | inl number ↦ inl (ground (arith, laws.lt-eq-not-le gap one number (laws.number_lit 1 1)))
      ]

  read_back-HoldsOutput :
      (s : FileCvSink) (cv : F) (d : D) → read_back texts out s cv d ≡ none → HoldsOutput s cv d
  unfolding read_back
  read_back-HoldsOutput s cv d e = elim (IoResult-cases (out.read_file s.path d)) [
    | inl (fault, found) ↦ let e' : some fault ≡ none = rw (found, read_back) at e in cc
    | inr (content, found) ↦ elim (IoResult-cases (number_in texts.parse content)) [
      | inl (fault, bad) ↦ let e' : some fault ≡ none = rw (found, bad, read_back) at e in cc
      | inr (v, good) ↦
          let e' : matches texts out s.precision cv v ≡ none = rw (found, good, read_back) at e in
          (content, v, found, number_in-eq content v good, matches-SameRounded s.precision cv v e')
    ]
  ]

  -- A write with the verification that reports no error left in the file a text that reads as a
  -- float: rounded to the precision it is less than one unit from the output, unless their
  -- difference is NaN (one of them is NaN, or both are the same infinity), which the verification
  -- lets through. And the verification writes nothing: the world is as after the same write without
  -- it, which reports no error either.
  pub verified_write :
      (s : FileCvSink) (cv : F) (d : D)
      → s.verify ≡ true
      → (write_file_cv texts out s cv d).0 ≡ none
      → HoldsOutput s cv (write_file_cv texts out s cv d).1
        × (write_file_cv texts out (record s { verify = false }) cv d
            ≡ (none, (write_file_cv texts out s cv d).1))
  unfolding write_file_cv read_back
  verified_write s cv d on e =
      let w = out.write_file s.path (texts.display s.precision cv ++ (10 ∷ [])) d in
      elim (Option-cases w.0) [
        | inl done ↦
            let e' : read_back texts out s cv w.1 ≡ none = rw (done, on, write_file_cv) at e in
            rw (done, write_file_cv) (read_back-HoldsOutput s cv w.1 e', refl)
        | inr (fault, failed) ↦ let e' : some fault ≡ none = rw (failed, write_file_cv) at e in cc
      ]
