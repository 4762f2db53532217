-- ===== src/Agent/Output.antt =====
-- The output cap and the chunks of `streamWriter` in cmd/guest-agent/guest_agent.go.
use sandboxed_ai_agent_orche.Prelude.{
  ℕ, zero, suc, ◌+◌, ◌-◌, ◌≤◌, ◌<◌, ◌≡◌, refl, sym, ap, ◌∙◌, ◌⊎◌, inl, inr, Bool, true, false, ◌&&◌,
  ◌||◌, List, [], ◌∷◌, ◌++◌, arith, ltb, ◌==◌, if◌then◌else◌, Bool-cases, length, take, drop,
  length-append, length-take, length-drop, take-append-drop, take_all, take_append, concat,
  append_assoc, append-nil, All, All-append,
}
use sandboxed_ai_agent_orche.Prelude.Text.{Text}
use sandboxed_ai_agent_orche.Protocol.{ResponseFrame}
use sandboxed_ai_agent_orche.Agent.{
  all_on_wire, Sender, StreamWriter, output_frame, admitted, send_chunks, write, copy_output,
  new_stream_writer,
}

abbrev pub bytes_of : List ResponseFrame → Text
bytes_of [] = []
bytes_of (f ∷ fs) = f.payload ++ bytes_of fs

pub bytes_of-append :
    (fs gs : List ResponseFrame) → bytes_of (fs ++ gs) ≡ bytes_of fs ++ bytes_of gs
bytes_of-append [] gs = refl
bytes_of-append (f ∷ fs) gs = rw (append_assoc, bytes_of-append fs gs)

pub all_on_wire-append :
    (coerce : Text → Text) (fs gs : List ResponseFrame)
    → all_on_wire coerce (fs ++ gs) ≡ all_on_wire coerce fs ++ all_on_wire coerce gs
all_on_wire-append coerce [] gs = refl
all_on_wire-append coerce (f ∷ fs) gs = rw (all_on_wire-append coerce fs gs) refl

-- An output frame of one request, within the chunk size.
abbrev pub IsChunk : StreamWriter → ResponseFrame → Type 0
IsChunk s f = (f ≡ output_frame s.id f.payload) × (length f.payload ≤ s.chunk)

-- What a step of the writer has done: it sent `fresh`, counted its bytes, and kept its settings.
pub record Sent (out : Sender) (s : StreamWriter) (c : out.Conn) (fresh : List ResponseFrame)
    (s' : StreamWriter) (c' : out.Conn) : Type 0 where
  pub grew : out.frames c' ≡ out.frames c ++ all_on_wire out.coerce fresh
  pub counted : s'.written ≡ s.written + length (bytes_of fresh)
  pub chunks : All (IsChunk s) fresh
  pub same_id : s'.id ≡ s.id
  pub same_max : s'.max ≡ s.max
  pub same_chunk : s'.chunk ≡ s.chunk

module _ (out : Sender) where
  Sent-none :
      (s s' : StreamWriter) (c c' : out.Conn)
      → out.frames c' ≡ out.frames c
      → s'.written ≡ s.written
      → (s'.id ≡ s.id) × (s'.max ≡ s.max) × (s'.chunk ≡ s.chunk)
      → Sent out s c [] s' c'
  Sent-none s s' c c' e w (i, m, k) = record {
    grew = e ∙ sym (append-nil (out.frames c));
    counted = omega arith;
    chunks = tt;
    same_id = i;
    same_max = m;
    same_chunk = k;
  }

  Sent-trans :
      (s s' s'' : StreamWriter) (c c' c'' : out.Conn) (fs gs : List ResponseFrame)
      → Sent out s c fs s' c'
      → Sent out s' c' gs s'' c''
      → Sent out s c (fs ++ gs) s'' c''
  Sent-trans s s' s'' c c' c'' fs gs a b = record {
    grew =
        b.grew
        ∙ ap (λ (x : List ResponseFrame). x ++ all_on_wire out.coerce gs) a.grew
        ∙ append_assoc (out.frames c) (all_on_wire out.coerce fs) (all_on_wire out.coerce gs)
        ∙ ap (λ (x : List ResponseFrame). out.frames c ++ x)
            (sym (all_on_wire-append out.coerce fs gs));
    counted = omega (
      arith,
      a.counted,
      b.counted,
      ap length (bytes_of-append fs gs),
      length-append (bytes_of fs) (bytes_of gs),
    );
    chunks = All-append _ fs gs a.chunks (rw (a.same_id, a.same_chunk) at b.chunks);
    same_id = b.same_id ∙ a.same_id;
    same_max = b.same_max ∙ a.same_max;
    same_chunk = b.same_chunk ∙ a.same_chunk;
  }

  chunk_step :
      (chunk : Text) (s : StreamWriter) (c : out.Conn)
      → length chunk ≤ s.chunk
      → (out.send (output_frame s.id chunk) c).0 ≡ true
      → Sent out s c
          (output_frame s.id chunk ∷ [])
          (record s { written = s.written + length chunk })
          (out.send (output_frame s.id chunk) c).1
  chunk_step chunk s c small e = record {
    grew = out.send-ok (output_frame s.id chunk) c e;
    counted = rw append-nil;
    chunks = ((refl, small), tt);
    same_id = refl;
    same_max = refl;
    same_chunk = refl;
  }

  -- A step that was handed `p`: the frames it sent, and that they carry all of `p` if none failed.
  record Sends (p : Text) (s : StreamWriter) (c : out.Conn) (r : Bool × StreamWriter × out.Conn)
      : Type 0 where
    fresh : List ResponseFrame
    sent : Sent out s c fresh r.1 r.2
    within : r.1.written ≤ s.written + length p
    flag : r.1.truncated ≡ s.truncated
    whole : r.0 ≡ true → bytes_of fresh ≡ p

  Sends-nil : (s : StreamWriter) (c : out.Conn) → Sends [] s c (true, s, c)
  Sends-nil s c = record {
    fresh = [];
    sent = Sent-none s s c c refl refl (refl, refl, refl);
    within = omega arith;
    flag = refl;
    whole = λ e. refl;
  }

  send_chunks-Sends :
      (n : ℕ) (p : Text) (s : StreamWriter) (c : out.Conn)
      → 0 < s.chunk
      → length p ≤ n
      → Sends p s c (send_chunks out n p s c)
  unfolding send_chunks
  send_chunks-Sends zero [] s c pos h = Sends-nil s c
  send_chunks-Sends zero (b ∷ p) s c pos h = absurd (omega arith)
  send_chunks-Sends (suc n) [] s c pos h = Sends-nil s c
  send_chunks-Sends (suc n) (b ∷ p) s c pos h =
      let q = b ∷ p in
      let f = output_frame s.id (take s.chunk q) in
      let s' = record s { written = s.written + length (take s.chunk q) } in
      let c' = (out.send f c).1 in
      let size = length-take s.chunk q in
      let left = length-drop s.chunk q in
      let ih = send_chunks-Sends n (drop s.chunk q) s' c' pos (omega arith) in
      elim (Bool-cases (out.send f c).0) [
        | inr bad ↦ rw bad (record {
          fresh = [];
          sent = Sent-none s s c c' (out.send-failed f c bad) refl (refl, refl, refl);
          within = omega arith;
          flag = refl;
          whole = λ e. absurd (cc);
        })
        | inl good ↦ rw good (record {
          fresh = f ∷ ih.fresh;
          sent =
              Sent-trans s s' _ c c' _ (f ∷ []) ih.fresh
                (chunk_step (take s.chunk q) s c (omega arith) good) ih.sent;
          within = omega (arith, ih.within);
          flag = ih.flag;
          whole = λ e. ap (◌++◌ (take s.chunk q)) (ih.whole e) ∙ take-append-drop s.chunk q;
        })
      ]

-- What of `t` the cap lets through, and the flag after it.
abbrev pub let_through : StreamWriter → Text → Text
let_through s t = if s.truncated then [] else (if s.max == 0 then t else take (s.max - s.written) t)

abbrev pub flag_after : StreamWriter → Text → Bool
flag_after s t = s.truncated || (ltb 0 s.max && ltb s.max (s.written + length t))

abbrev WithinCap : StreamWriter → Type 0
WithinCap s = (s.max ≡ 0) ⊎ (s.written ≤ s.max)

admitted_lem :
    (s : StreamWriter) (p : Text)
    → s.truncated ≡ false
    → WithinCap s
    → ((admitted s p).0 ≡ let_through s p)
      × ((admitted s p).1 ≡ flag_after s p)
      × ((s.max ≡ 0) ⊎ (s.written + length (admitted s p).0 ≤ s.max))
unfolding admitted
admitted_lem s p t w =
    ground (arith, take_all (s.max - s.written) p, length-take (s.max - s.written) p)

module _ (out : Sender) where
  -- A write, or a copy of several, that was handed the bytes `t`.
  pub record Wrote (t : Text) (s : StreamWriter) (c : out.Conn) (r : Bool × StreamWriter × out.Conn)
      : Type 0 where
    pub fresh : List ResponseFrame
    pub sent : Sent out s c fresh r.1 r.2
    pub capped : WithinCap r.1
    pub whole : r.0 ≡ true → bytes_of fresh ≡ let_through s t
    pub flag : r.0 ≡ true → r.1.truncated ≡ flag_after s t

  Sent-unflag :
      (s s' : StreamWriter) (b : Bool) (c c' : out.Conn) (fs : List ResponseFrame)
      → Sent out (record s { truncated = b }) c fs s' c'
      → Sent out s c fs s' c'
  Sent-unflag s s' b c c' fs h = record {
    grew = h.grew;
    counted = h.counted;
    chunks = h.chunks;
    same_id = h.same_id;
    same_max = h.same_max;
    same_chunk = h.same_chunk;
  }

  write_shut :
      (p : Text) (s : StreamWriter) (c : out.Conn)
      → s.truncated ≡ true
      → write out p s c ≡ (true, s, c)
  unfolding write
  write_shut p s c t = ground arith

  write_open :
      (p : Text) (s : StreamWriter) (c : out.Conn)
      → s.truncated ≡ false
      → write out p s c
        ≡ send_chunks out
            (length (admitted s p).0)
            (admitted s p).0
            (record s { truncated = (admitted s p).1 })
            c
  unfolding write
  write_open p s c t = ground arith

  write-Wrote :
      (p : Text) (s : StreamWriter) (c : out.Conn)
      → 0 < s.chunk
      → WithinCap s
      → Wrote p s c (write out p s c)
  write-Wrote p s c pos w = elim (Bool-cases s.truncated) [
    | inl t ↦ rw (write_shut p s c t) (record {
      fresh = [];
      sent = Sent-none out s s c c refl refl (refl, refl, refl);
      capped = w;
      whole = λ e. ground arith;
      flag = λ e. ground arith;
    })
    | inr t ↦
        let (q, f, room) = admitted_lem s p t w in
        let s' = record s { truncated = (admitted s p).1 } in
        let h =
          send_chunks-Sends out (length (admitted s p).0) (admitted s p).0 s' c pos (omega arith) in
        rw (write_open p s c t) (record {
          fresh = h.fresh;
          sent = Sent-unflag s _ (admitted s p).1 c _ h.fresh h.sent;
          capped = omega (arith, h.within, h.sent.same_max);
          whole = λ e. h.whole e ∙ q;
          flag = λ e. h.flag ∙ f;
        })
  ]

  -- The budget for two writes in a row.
  let_through-append :
      (s s' : StreamWriter) (p t : Text)
      → s'.max ≡ s.max
      → s'.written ≡ s.written + length (let_through s p)
      → s'.truncated ≡ flag_after s p
      → WithinCap s
      → (let_through s (p ++ t) ≡ let_through s p ++ let_through s' t)
        × (flag_after s (p ++ t) ≡ flag_after s' t)
  let_through-append s s' p t m n b w = ground (
    arith,
    take_append (s.max - s.written) p t,
    take_all (s.max - s.written) p,
    length-take (s.max - s.written) p,
    length-append p t,
  )

  copy_output-Wrote :
      (ps : List Text) (s : StreamWriter) (c : out.Conn)
      → 0 < s.chunk
      → WithinCap s
      → Wrote (concat ps) s c (copy_output out ps s c)
  unfolding copy_output
  copy_output-Wrote [] s c pos w = record {
    fresh = [];
    sent = Sent-none out s s c c refl refl (refl, refl, refl);
    capped = w;
    whole = λ e. ground (arith, take_all (s.max - s.written) (concat {A = ℕ} []));
    flag = λ e. ground arith;
  }
  copy_output-Wrote (p ∷ ps) s c pos w =
      let h = write-Wrote p s c pos w in
      let s' = (write out p s c).1 in
      let c' = (write out p s c).2 in
      let ih = copy_output-Wrote ps s' c' (omega (arith, h.sent.same_chunk)) h.capped in
      elim (Bool-cases (write out p s c).0) [
        | inr bad ↦ rw bad (record {
          fresh = h.fresh;
          sent = h.sent;
          capped = h.capped;
          whole = λ e. absurd (cc);
          flag = λ e. absurd (cc);
        })
        | inl good ↦
            let (split, flags) =
              let_through-append s s' p (concat ps) h.sent.same_max
                (h.sent.counted ∙ ap (λ (t : Text). s.written + length t) (h.whole good))
                (h.flag good) w in
            rw good (record {
              fresh = h.fresh ++ ih.fresh;
              sent = Sent-trans out s s' _ c c' _ h.fresh ih.fresh h.sent ih.sent;
              capped = ih.capped;
              whole = λ e.
                  bytes_of-append h.fresh ih.fresh
                  ∙ ap (λ (x : Text). x ++ bytes_of ih.fresh) (h.whole good)
                  ∙ ap (◌++◌ (let_through s p)) (ih.whole e)
                  ∙ sym split;
              flag = λ e. ih.flag e ∙ sym flags;
            })
      ]

  -- What the stream writer makes of a script's output, whatever the writes in which it arrives. What it
  -- hands to the FrameWriter with success are output frames of the request, none longer than the chunk
  -- size; with a cap they carry no more bytes than it. If no send failed they carry exactly the output,
  -- cut off at the cap, and the truncation flag says whether something was cut off. What the host reads
  -- is these frames in this order, each with its texts as json.Marshal has them, which replaces what is
  -- not UTF-8, also where a chunk or the cap has cut a character.
  pub copy_output_cap :
      (id : Text) (max chunk : ℕ) (ps : List Text) (c : out.Conn)
      → let s = new_stream_writer id max chunk in
        let r = copy_output out ps s c in
        (fresh : List ResponseFrame) × (out.frames r.2
          ≡ out.frames c ++ all_on_wire out.coerce fresh)
        × All (IsChunk s) fresh
        × (0 < max → length (bytes_of fresh) ≤ max)
        × (r.0 ≡ true → bytes_of fresh ≡ (if max == 0 then concat ps else take max (concat ps)))
        × (r.0 ≡ true → r.1.truncated ≡ (ltb 0 max && ltb max (length (concat ps))))
  unfolding new_stream_writer
  copy_output_cap id max chunk ps c =
      let s : StreamWriter = new_stream_writer id max chunk in
      let h = copy_output-Wrote ps s c (ground arith) (inr (omega arith)) in
      let n = h.sent.counted in
      (
        h.fresh,
        h.sent.grew,
        h.sent.chunks,
        λ pos. omega (arith, h.capped, h.sent.same_max, h.sent.counted),
        λ e. h.whole e ∙ ground arith,
        λ e. h.flag e ∙ ground arith,
      )
