-- ===== src/Opening/Captures.antt =====
-- client_windows.go: the constructor of the capturer and its `close`.
pub mod Balance
use fatun.Base.{ℕ, Option, none, some, List, [], ◌∷◌, ◌++◌, Error, Fallible, ok, err}
use fatun.Net.{Addr}
use fatun.Opening.{Effect, opens, closes, closing, pcap_file, divert_handle, mapping}
use fatun.Opening.Senders.{Interface, iface_by_addr}

-- `type capture struct`: the handles that it closes, and the index of the interface to inject to.
pub record Capture : Type 0 where
  pub capture : Option (List Effect)
  pub mapping : Option (List Effect)
  pub if_idx : ℕ

-- `func (c *capture) close`
unfoldable pub close_capture : Capture → List Effect
close_capture c = closing c.capture ++ closing c.mapping

-- What the calls of `NewDefaultCapture` answer.
pub record CaptureAnswers : Type 0 where
  pub pcap_open : Option Error
  pub divert_open : Option Error
  pub interfaces : Fallible (List Interface)
  pub not_found : Error
  pub new_mapping : Option Error

-- `NewDefaultCapture`
unfoldable pub new_default_capture : CaptureAnswers → Addr → Fallible Capture × List Effect
new_default_capture answers laddr =
    let handle : Option (List Effect) = some (closes divert_handle ∷ []) in
    let empty : Capture = record { capture = none; mapping = none; if_idx = 0 } in
    let opened : Capture = record { capture = handle; mapping = none; if_idx = 0 } in
    elim answers.pcap_open [
      | some e ↦ (err e, [])
      | none ↦ elim answers.divert_open [
        | some e ↦ (err e, opens pcap_file ∷ close_capture empty)
        | none ↦ elim (iface_by_addr answers.interfaces answers.not_found laddr) [
          | err e ↦ (err e, opens pcap_file ∷ opens divert_handle ∷ [])
          | ok i ↦
              let found : Capture = record opened { if_idx = i.index } in
              elim answers.new_mapping [
                | some e ↦ (err e, opens pcap_file ∷ opens divert_handle ∷ close_capture found)
                | none ↦ (
                  ok (record found { mapping = some (closes mapping ∷ []) }),
                  opens pcap_file ∷ opens divert_handle ∷ opens mapping ∷ [],
                )
              ]
        ]
      ]
    ]
