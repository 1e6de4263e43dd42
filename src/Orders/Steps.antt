-- ===== src/Orders/Steps.antt =====
-- The writes on orders as steps of the state, and what they all keep:
-- apps/api/src/modules/purchaseorders/service.ts and modules/grn/service.ts.
use rch.Prelude.{ℕ, ◌≡◌, ℤ, List, ok}
use rch.Workflow.Status.{po_coded}
use rch.Purchasing.Approval.{AskedLine}
use rch.Orders.{Buying}
use rch.Orders.Drafting.{CreatePoBody, UpdatePoLineBody, create, update_line, remove_line}
use rch.Orders.Patching.{PatchPoBody, patch}
use rch.Orders.Placing.{send, cancel}
use rch.Orders.Writes.{create-IsBought, update_line-IsBought, remove_line-IsBought, patch-IsBought}
use rch.Orders.Booking.{ReceivePoBody, receive, close_short}
use rch.Orders.Asking.{create_requisition, add_direct, approve, decline}
use rch.Orders.Decided.{
  create_requisition-IsBought, add_direct-IsBought, approve-IsBought, decline-IsBought,
}
use rch.Orders.Bought.{IsBought}
-- A delivery that is booked in.
use rch.Orders.Kept.{send-IsBought, cancel-IsBought, close_short-IsBought, receive-IsBought}

-- One write on the requisitions and the orders that goes through.
pub data Write (s t : Buying) : Type 0 where
  raised : (by : ℕ) (lines : List AskedLine) → create_requisition by lines s ≡ ok t → Write s t
  added :
      (by : ℕ) (lines : List AskedLine) (note : List ℕ)
      → add_direct by lines note s ≡ ok t
      → Write s t
  decided :
      (by id : ℕ) (appr : List ℤ) (note : List ℕ) → approve by id appr note s ≡ ok t → Write s t
  declined_whole : (by id : ℕ) (note : List ℕ) → decline by id note s ≡ ok t → Write s t
  created : (by : ℕ) (body : CreatePoBody) (today : ℕ) → create by body today s ≡ ok t → Write s t
  updated :
      (id n : ℕ) (body : UpdatePoLineBody) (today : ℕ)
      → update_line id n body today s ≡ ok t
      → Write s t
  removed : (id n : ℕ) → remove_line id n s ≡ ok t → Write s t
  patched : (id : ℕ) (body : PatchPoBody) (today : ℕ) → patch id body today s ≡ ok t → Write s t
  sent : (by id today : ℕ) → send by id today s ≡ ok t → Write s t
  called_off : (by id : ℕ) (reason : List ℕ) → cancel by id reason s ≡ ok t → Write s t
  booked :
      (by id : ℕ) (body : ReceivePoBody) (today : ℕ) → receive by id body today s ≡ ok t → Write s t
  closed : (by id : ℕ) (reason : List ℕ) → close_short by id reason s ≡ ok t → Write s t

pub data Writes : Buying → Buying → Type 0 where
  none_yet : (s : Buying) → Writes s s
  then_one : (s t u : Buying) → Writes s t → Write t u → Writes s u

Write-IsBought : (s t : Buying) → Write s t → IsBought s → IsBought t
Write-IsBought s t (raised by lines done) h = create_requisition-IsBought by lines s h done
Write-IsBought s t (added by lines note done) h = add_direct-IsBought by lines note s h done
Write-IsBought s t (decided by id appr note done) h = approve-IsBought by id appr note s h done
Write-IsBought s t (declined_whole by id note done) h = decline-IsBought by id note s h done
Write-IsBought s t (created by body today done) h = create-IsBought by body today s h done
Write-IsBought s t (updated id n body today done) h = update_line-IsBought id n body today s h done
Write-IsBought s t (removed id n done) h = remove_line-IsBought id n s h done
Write-IsBought s t (patched id body today done) h = patch-IsBought id body today s h done
Write-IsBought s t (sent by id today done) h = send-IsBought by id today s h done
Write-IsBought s t (called_off by id reason done) h = cancel-IsBought by id reason s h done
Write-IsBought s t (booked by id body today done) h = receive-IsBought by id body today s h done
Write-IsBought s t (closed by id reason done) h = close_short-IsBought by id reason s h done

-- Whatever writes on requisitions and orders go through, one after another, no requisition line is
-- ever ordered beyond what it was approved for, nothing is approved of a requisition that waits for
-- its decision, and the sources of every order stay claims, of whole thousandths and not below
-- nothing, where that holds at the start.
pub Writes-IsBought : {s t : Buying} → Writes s t → IsBought s → IsBought t
Writes-IsBought (none_yet s) h = h
Writes-IsBought (then_one s t u before w) h = Write-IsBought t u w (Writes-IsBought before h)
