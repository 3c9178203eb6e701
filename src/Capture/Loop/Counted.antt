-- ===== src/Capture/Loop/Counted.antt =====
-- The capture loop of src/capture.c, for every function that it hands packets to.
use netscope.Base.{
  ℕ, suc, ◌+◌, ◌^◌, ◌<◌, ◌%◌, Bool, true, false, List, [], ◌∷◌, ◌++◌, ◌≡◌, refl, sym, ap, ◌∙◌,
  length, All, if◌then◌else◌, append-nil, append_assoc, arith,
}
use mathlib.Core.Path.{subst}
use netscope.Run.{Run, done, Returns, Returns-bind, Returns-bind_done, Returns-mono, ◌>>=◌}
use netscope.Util.Buffer.{IsBuffer}
use netscope.Packet.Data.{Packet, LinkType}
use netscope.Packet.Dissect.{packet_parse}
use netscope.Packet.WellFormed.{IsPacket}
use netscope.Packet.Total.{packet_parse-IsPacket}
use netscope.Capture.Data.{live, Sys, need, Frame, Capture}
use netscope.Capture.Loop.{next_number, packet_callback, frame_loop}

-- The bytes of a frame are there, and its length is a uint32_t.
pub record IsFrame (f : Frame) : Type 0 where
  pub buffer : IsBuffer f.buf f.caplen
  pub short : f.caplen < 2 ^ 32

-- The dump file is open if there is one.
abbrev pub DumpOpen : Sys → Bool → Type 0
DumpOpen sys true = sys.dumper ≡ live
DumpOpen sys false = Unit

-- What is in the dump file after these frames.
abbrev pub dump_frames : Bool → List Frame → List Frame → List Frame
dump_frames true dumped frames = dumped ++ frames
dump_frames false dumped frames = dumped

dump_none : (dumper : Bool) (dumped : List Frame) → dumped ≡ dump_frames dumper dumped []
dump_none true dumped = sym (append-nil dumped)
dump_none false dumped = refl

dump_more :
    (dumper : Bool) (dumped : List Frame) (f : Frame) (fs : List Frame)
    → dump_frames dumper (dump_frames dumper dumped (f ∷ [])) fs
      ≡ dump_frames dumper dumped (f ∷ fs)
dump_more true dumped f fs = append_assoc dumped (f ∷ []) fs
dump_more false dumped f fs = refl

later : (n k : ℕ) → n + 1 + k ≡ n + suc k
later n k = omega arith

-- What the dissection makes of each frame, with its own bytes, lengths and time, under the number
-- that comes after `n`, and so on.
abbrev pub Dissected : LinkType → ℕ → List Frame → List Packet → Type 0
Dissected link n [] [] = Unit
Dissected link n (f ∷ fs) (p ∷ ps) =
    (packet_parse f.buf f.caplen f.len f.ts (n + 1) link ≡ done p) × Dissected link (n + 1) fs ps
Dissected link n [] (p ∷ ps) = ⊥
Dissected link n (f ∷ fs) [] = ⊥

-- The context after a call for each packet, in order.
abbrev pub Handed : {C : Type 0} → (C → Packet → Run C) → C → List Packet → C → Type 0
Handed call ctx [] last = ctx ≡ last
Handed {C} call ctx (p ∷ ps) last = (next : C) × (call ctx p ≡ done next) × Handed call next ps last

-- The context is what the calls make of the dissected frames.
abbrev pub Handled :
    {C : Type 0} → (C → Packet → Run C) → LinkType → ℕ → List Frame → C → C → Type 0
Handled call link n frames ctx last =
    (ps : List Packet) × Dissected link n frames ps × Handed call ctx ps last

-- After some frames behind the first `n`: the state that the loop is in, where `inv k` holds of the
-- context after `k` packets.
pub record Looped {C : Type 0} (call : C → Packet → Run C) (inv : ℕ → C → Type 0) (n : ℕ)
    (before : Capture) (dumped : List Frame) (ctx : C) (frames : List Frame)
    (s : Capture × List Frame × C) : Type 0 where
  pub number : s.0.next_packet_number ≡ n + length frames
  pub link : s.0.link_type ≡ before.link_type
  pub handle : s.0.handle ≡ before.handle
  pub dumper : s.0.dumper ≡ before.dumper
  pub dump : s.1 ≡ dump_frames before.dumper dumped frames
  pub context : inv (n + length frames) s.2
  pub packets : Handled call before.link_type n frames ctx s.2

module _ {C : Type 0} (on_packet : Sys → C → Packet → Run C) (inv : ℕ → C → Type 0) (sys : Sys)
    (step : (n k : ℕ) (ctx : C) (pkt : Packet)
      → inv n ctx
      → n + 1 < 2 ^ 64
      → k < 2 ^ 32
      → IsPacket k pkt
      → Returns (on_packet sys ctx pkt) (inv (n + 1))) where
  packet_callback-Looped :
      (n : ℕ) (cap : Capture) (dumped : List Frame) (ctx : C) (f : Frame)
      → DumpOpen sys cap.dumper
      → IsFrame f
      → cap.next_packet_number ≡ n
      → n + 1 < 2 ^ 64
      → inv n ctx
      → Returns
          (packet_callback on_packet sys (cap, dumped, ctx) f)
          (Looped (on_packet sys) inv n cap dumped ctx (f ∷ []))
  unfolding packet_callback next_number need
  packet_callback-Looped n cap dumped ctx f open_dump hf number room h =
      Returns-bind _ _ (λ d. d ≡ dump_frames cap.dumper dumped (f ∷ [])) _
        (by_dumper cap.dumper open_dump)
        (λ d same.
          Returns-bind_done
            (packet_parse f.buf f.caplen f.len f.ts ((cap.next_packet_number + 1) % 2 ^ 64)
              cap.link_type)
            _ (IsPacket f.caplen) _ (packet_parse-IsPacket hf.buffer f.len f.ts _ cap.link_type)
            (λ pkt parsed hp.
              Returns-bind_done (on_packet sys ctx pkt) _ (inv (n + 1)) _
                (step n f.caplen ctx pkt h room hf.short hp)
                (λ ctx' called h'. record {
                  number = next_is;
                  link = refl;
                  handle = refl;
                  dumper = refl;
                  dump = same;
                  context = h';
                  packets = (
                    pkt ∷ [],
                    (
                      subst (λ k. packet_parse f.buf f.caplen f.len f.ts k cap.link_type ≡ done pkt)
                          next_is parsed,
                      tt,
                    ),
                    (ctx', called, refl),
                  );
                })))
    where
      next_is : (cap.next_packet_number + 1) % 2 ^ 64 ≡ n + 1
      next_is = omega arith

      by_dumper :
          (dumper : Bool)
          → DumpOpen sys dumper
          → Returns
              (if dumper
                then need sys.dumper >>= (λ handle. done (dumped ++ (f ∷ [])))
                else done dumped)
              (λ d. d ≡ dump_frames dumper dumped (f ∷ []))
      by_dumper false o = refl
      by_dumper true o = rw o refl

  -- One frame more in front.
  Handled-more :
      (link link' : LinkType) (n : ℕ) (f : Frame) (fs : List Frame) (ctx mid last : C)
      → link' ≡ link
      → Handled (on_packet sys) link n (f ∷ []) ctx mid
      → Handled (on_packet sys) link' (n + 1) fs mid last
      → Handled (on_packet sys) link n (f ∷ fs) ctx last
  Handled-more link link' n f fs ctx mid last same ([], a, h) rest = absurd a
  Handled-more link link' n f fs ctx mid last same (p ∷ q ∷ ps, (a, b), h) rest = absurd b
  Handled-more link link' n f fs ctx mid last same (p ∷ [], (a, b), (next, called, e))
        (ps, all, more) =
      (
        p ∷ ps,
        (a, subst (λ l. Dissected l (n + 1) fs ps) same all),
        (mid, called ∙ ap done e, more),
      )

  -- For every callback that, while the loop runs, keeps an invariant from one packet to the next on
  -- well-formed packets, with the dump file open if there is one, frames whose bytes, fewer than
  -- 2^32, are there, and a count of packets that stays under 2^64, the loop ends without a fault. Each frame has been
  -- dissected once, in order, from its own bytes, lengths and time and under the next number, and the
  -- context is what one call for each of these packets makes of it, in the same order. The count has
  -- gone up by the number of frames, the invariant holds after that many packets, a dump file has all
  -- frames behind what it had, in order, and without one nothing is dumped. The capture is otherwise
  -- as it was.
  pub frame_loop-Looped :
      (frames : List Frame) (n : ℕ) (cap : Capture) (dumped : List Frame) (ctx : C)
      → DumpOpen sys cap.dumper
      → All IsFrame frames
      → cap.next_packet_number ≡ n
      → n + length frames < 2 ^ 64
      → inv n ctx
      → Returns
          (frame_loop on_packet sys (cap, dumped, ctx) frames)
          (Looped (on_packet sys) inv n cap dumped ctx frames)
  unfolding frame_loop
  frame_loop-Looped [] n cap dumped ctx o hs number room h = record {
    number = omega arith;
    link = refl;
    handle = refl;
    dumper = refl;
    dump = dump_none cap.dumper dumped;
    context = subst (λ (k : ℕ). inv k ctx) (omega arith) h;
    packets = ([], tt, refl);
  }
  frame_loop-Looped (f ∷ fs) n cap dumped ctx o hs number room h =
      Returns-bind (packet_callback on_packet sys (cap, dumped, ctx) f) _ _ _
        (packet_callback-Looped n cap dumped ctx f o hs.0 number (omega arith) h)
        (λ s l.
          Returns-mono (frame_loop on_packet sys s fs) _ _
            (frame_loop-Looped fs (n + 1) s.0 s.1 s.2 (subst (DumpOpen sys) (sym l.dumper) o) hs.1
              l.number (omega arith) l.context)
            (λ r m. record {
              number = m.number ∙ later n (length fs);
              link = m.link ∙ l.link;
              handle = m.handle ∙ l.handle;
              dumper = m.dumper ∙ l.dumper;
              dump =
                  m.dump
                  ∙ ap (λ (b : Bool). dump_frames b s.1 fs) l.dumper
                  ∙ ap (λ (d : List Frame). dump_frames cap.dumper d fs) l.dump
                  ∙ dump_more cap.dumper dumped f fs;
              context = subst (λ (k : ℕ). inv k r.2) (later n (length fs)) m.context;
              packets =
                  Handled-more cap.link_type s.0.link_type n f fs ctx s.2 r.2 l.link l.packets
                    m.packets;
            }))
