-- ===== src/Placement/Faces.antt =====
-- The endpoints of an instance, as placement.go and frames.go read them.
use atlas_game_layout.Common.{
  sym, subst, String, true, List, [], ◌∷◌, Option, none, some, ◌≡◌, ◌≢◌, ◌⊎◌, inl, inr, refl, ◌&&◌,
  ◌==◌, member, string_key, str_iff, arith, Option-cases, Bool-cases,
}
use atlas_game_layout.Placement.Candidates.{
  ServiceInstance, Parse, grpc_host, grpc_addr, is_frame, has_frame_face, frame_ids, frame_ready,
  unless_empty,
}

abbrev pub Has : List (Option ServiceInstance) → ServiceInstance → Type 0
Has [] si = ⊥
Has (x ∷ xs) si = (x ≡ some si) ⊎ Has xs si

-- The address is the host of the first endpoint that has the scheme "grpc" and a host.
abbrev pub IsGrpcAt : Parse → List String → String → Type 0
IsGrpcAt parse [] addr = ⊥
IsGrpcAt parse (ep ∷ eps) addr =
    ((parse ep ≡ some ("grpc", addr)) × (addr ≢ ""))
    ⊎ (((h : String) → h ≢ "" → parse ep ≡ some ("grpc", h) → ⊥) × IsGrpcAt parse eps addr)

abbrev pub IsFace : Option (String × String) → Type 0
IsFace none = ⊥
IsFace (some (scheme, host)) =
    ((scheme ≡ "ws") ⊎ ((scheme ≡ "kcp") ⊎ (scheme ≡ "udp"))) × (host ≢ "")

-- One of the endpoints is a frame face: a host under one of the three schemes.
abbrev pub HasFace : Parse → List String → Type 0
HasFace parse [] = ⊥
HasFace parse (ep ∷ eps) = IsFace (parse ep) ⊎ HasFace parse eps

-- The registry lists a frame instance of that id with a frame face.
abbrev pub IsFrameReady : Parse → Option (List (Option ServiceInstance)) → String → Type 0
IsFrameReady parse none id = ⊥
IsFrameReady parse (some list) id =
    (fi : ServiceInstance) × Has list fi × (fi.id ≡ id) × HasFace parse fi.endpoints

grpc_host-some :
    (o : Option (String × String)) (h : String)
    → grpc_host o ≡ some h
    → (o ≡ some ("grpc", h)) × (h ≢ "")
grpc_host-some none h e = absurd (ground arith)
grpc_host-some (some (scheme, host)) h e =
    (ground (arith, str_iff scheme "grpc"), ground (arith, str_iff host ""))

grpc_host-grpc :
    (o : Option (String × String)) (h : String)
    → h ≢ ""
    → o ≡ some ("grpc", h)
    → grpc_host o ≡ some h
grpc_host-grpc o h ne e =
    subst (λ x. grpc_host x ≡ some h) (sym e) (ground (arith, str_iff "grpc" "grpc", str_iff h ""))

module _ (parse : Parse) where
  pub grpc_addr-IsGrpcAt :
      (eps : List String) (a : String) → grpc_addr parse eps ≡ some a → IsGrpcAt parse eps a
  unfolding grpc_addr
  grpc_addr-IsGrpcAt [] a e = absurd (ground arith)
  grpc_addr-IsGrpcAt (ep ∷ eps) a e = elim (Option-cases (grpc_host (parse ep))) [
    | inl other ↦ inr (
      (λ h ne at. ground (arith, other, grpc_host-grpc (parse ep) h ne at)),
      grpc_addr-IsGrpcAt eps a (ground (arith, e, other)),
    )
    | inr (h, at) ↦ inl (grpc_host-some (parse ep) a (ground (arith, e, at)))
  ]

  pub IsGrpcAt-grpc_addr :
      (eps : List String) (a : String) → IsGrpcAt parse eps a → grpc_addr parse eps ≡ some a
  unfolding grpc_addr
  IsGrpcAt-grpc_addr [] a h = absurd h
  IsGrpcAt-grpc_addr (ep ∷ eps) a (inl (at, ne)) = ground (arith, grpc_host-grpc (parse ep) a ne at)
  IsGrpcAt-grpc_addr (ep ∷ eps) a (inr (off, rest)) = elim (Option-cases (grpc_host (parse ep))) [
    | inl other ↦ ground (arith, other, IsGrpcAt-grpc_addr eps a rest)
    | inr (h, at) ↦ let (is, ne) = grpc_host-some (parse ep) h at in absurd (off h ne is)
  ]

  is_frame-IsFace : (o : Option (String × String)) → is_frame o ≡ true → IsFace o
  is_frame-IsFace none e = absurd (ground arith)
  is_frame-IsFace (some (scheme, host)) e = (
    ground (arith, str_iff "ws" scheme, str_iff "kcp" scheme, str_iff "udp" scheme),
    ground (arith, str_iff host ""),
  )

  IsFace-is_frame : (o : Option (String × String)) → IsFace o → is_frame o ≡ true
  IsFace-is_frame none h = absurd h
  IsFace-is_frame (some (scheme, host)) h =
      ground
        (arith, str_iff "ws" scheme, str_iff "kcp" scheme, str_iff "udp" scheme, str_iff host "")

  has_frame_face-HasFace : (eps : List String) → has_frame_face parse eps ≡ true → HasFace parse eps
  unfolding has_frame_face
  has_frame_face-HasFace [] e = absurd (ground arith)
  has_frame_face-HasFace (ep ∷ eps) e = elim (Bool-cases (is_frame (parse ep))) [
    | inl t ↦ inl (is_frame-IsFace (parse ep) t)
    | inr f ↦ inr (has_frame_face-HasFace eps (ground (arith, e, f)))
  ]

  HasFace-has_frame_face : (eps : List String) → HasFace parse eps → has_frame_face parse eps ≡ true
  unfolding has_frame_face
  HasFace-has_frame_face [] h = absurd h
  HasFace-has_frame_face (ep ∷ eps) (inl h) = ground (arith, IsFace-is_frame (parse ep) h)
  HasFace-has_frame_face (ep ∷ eps) (inr h) = ground (arith, HasFace-has_frame_face eps h)

  one_more_frame :
      (x : Option ServiceInstance) (list : List (Option ServiceInstance)) (id : String)
      → IsFrameReady parse (some list) id
      → IsFrameReady parse (some (x ∷ list)) id
  one_more_frame x list id (fi, has, same, face) = (fi, inr has, same, face)

  frame_ids-IsFrameReady :
      (list : List (Option ServiceInstance)) (id : String)
      → member id (frame_ids parse list) ≡ true
      → IsFrameReady parse (some list) id
  unfolding frame_ids
  frame_ids-IsFrameReady [] id e = absurd (ground arith)
  frame_ids-IsFrameReady (none ∷ list) id e =
      one_more_frame none list id (frame_ids-IsFrameReady list id e)
  frame_ids-IsFrameReady (some si ∷ list) id e =
      elim (Bool-cases (has_frame_face parse si.endpoints && (si.id == id))) [
        | inl t ↦ (
          si,
          inl refl,
          ground (arith, t, str_iff si.id id),
          has_frame_face-HasFace si.endpoints (ground (arith, t)),
        )
        | inr f ↦
            one_more_frame (some si) list id (frame_ids-IsFrameReady list id (ground (arith, e, f)))
      ]

  IsFrameReady-frame_ids :
      (list : List (Option ServiceInstance)) (fi : ServiceInstance)
      → Has list fi
      → HasFace parse fi.endpoints
      → member fi.id (frame_ids parse list) ≡ true
  unfolding frame_ids
  IsFrameReady-frame_ids [] fi has face = absurd has
  IsFrameReady-frame_ids (none ∷ list) fi (inl e) face = absurd (ground arith)
  IsFrameReady-frame_ids (none ∷ list) fi (inr has) face = IsFrameReady-frame_ids list fi has face
  IsFrameReady-frame_ids (some si ∷ list) fi (inl e) face =
      let same : si ≡ fi = ground (arith, e) in
      ground (arith, same, HasFace-has_frame_face fi.endpoints face, str_iff fi.id fi.id)
  IsFrameReady-frame_ids (some si ∷ list) fi (inr has) face =
      ground (arith, IsFrameReady-frame_ids list fi has face)

  -- The ids of `frameReady` are those of the frame instances with a frame face.
  pub frame_ready-IsFrameReady :
      (frames : Option (List (Option ServiceInstance))) (ids : List String) (id : String)
      → frame_ready parse frames ≡ some ids
      → member id ids ≡ true
      → IsFrameReady parse frames id
  unfolding frame_ready
  frame_ready-IsFrameReady none ids id e m = absurd (ground arith)
  frame_ready-IsFrameReady (some list) ids id e m =
      frame_ids-IsFrameReady list id (after (frame_ids parse list) e)
    where
      after : (is : List String) → unless_empty is ≡ some ids → member id is ≡ true
      after [] e = absurd (ground arith)
      after (i ∷ is) e = ground (arith, e, m)

  pub IsFrameReady-frame_ready :
      (frames : Option (List (Option ServiceInstance))) (id : String)
      → IsFrameReady parse frames id
      → (ids : List String) × (frame_ready parse frames ≡ some ids) × (member id ids ≡ true)
  unfolding frame_ready
  IsFrameReady-frame_ready none id h = absurd h
  IsFrameReady-frame_ready (some list) id (fi, has, same, face) =
      after (frame_ids parse list) (ground (arith, same, IsFrameReady-frame_ids list fi has face))
    where
      after :
          (is : List String)
          → member id is ≡ true
          → (ids : List String) × (unless_empty is ≡ some ids) × (member id ids ≡ true)
      after [] m = absurd (ground arith)
      after (i ∷ is) m = (i ∷ is, refl, m)
