-- ===== src/Examples/Handlers.antt =====
-- The attributes at their default values, under the kernel of the sample.
use network_lab.Common.{◌≡◌, refl, false, List, [], ◌∷◌, replicate, Returns, ok, pos, arith}
use network_lab.Sysfs.{World, bytes}
use network_lab.Sysfs.V4
use network_lab.Sysfs.V4.Laws as Laws4
use network_lab.Sysfs.V4.RoundTrip as RoundTrip4
use network_lab.Sysfs.V6
use network_lab.Sysfs.V6.Laws as Laws6
use network_lab.Sysfs.V6.RoundTrip as RoundTrip6
use network_lab.Examples.Values.{sample_printer, sample_kernel, sample_device}

abbrev idle4 : World V4.Config
idle4 = record { config = V4.defaults; locked = false; references = 0 }

idle4-IsReady : Laws4.IsReady idle4
idle4-IsReady = record { free = refl; valid = ground arith }

abbrev idle6 : World V6.Config
idle6 = record { config = V6.defaults; locked = false; references = 0 }

idle6-IsReady : Laws6.IsReady idle6
idle6-IsReady = record { free = refl; valid = ground arith }

-- Set the batch to 8, try to set the loop to 0, and ask for the interface.
abbrev session4 : List V4.Request
session4 =
    V4.write_request V4.batch_count (8 ∷ []) 2
    ∷ V4.write_request V4.loop_count (0 ∷ []) 2
    ∷ V4.read_request V4.flow_oif
    ∷ []

serve_all-IsReady_example :
    Returns (λ a. Laws4.IsReady a.1) (V4.serve_all sample_kernel sample_printer session4 idle4)
serve_all-IsReady_example =
    Laws4.serve_all-IsReady sample_kernel sample_printer session4 idle4 idle4-IsReady

sample-ReadsBack4 : RoundTrip4.ReadsBack sample_kernel sample_printer
sample-ReadsBack4 = record {
  lu_back = λ v h. ground arith;
  hex2_back = λ v h. ground arith;
  hex8_back = λ v h. ground arith;
  ip4_back = λ v h. omega arith;
}

write_back_lem_example :
    RoundTrip4.write_back sample_kernel sample_printer V4.loop_count 5 idle4 ≡ ok (bytes 5, idle4)
write_back_lem_example =
    RoundTrip4.write_back_lem sample_kernel sample_printer V4.loop_count 5 idle4 sample-ReadsBack4
      RoundTrip4.plain_loop_count idle4-IsReady

-- The interface is the sample's device.
abbrev bound4 : World V4.Config
bound4 = record idle4 { config = record V4.defaults { flow_oif = pos 2 } }

serve_all-references_example :
    Returns
      (λ r. r.1.references ≡ 3)
      (V4.serve_all sample_kernel sample_printer (replicate 3 (V4.read_request V4.flow_oif)) bound4)
serve_all-references_example =
    RoundTrip4.serve_all-references sample_kernel sample_printer sample_device 3 bound4 refl refl

sample-ReadsBack6 : RoundTrip6.ReadsBack sample_kernel sample_printer
sample-ReadsBack6 = record {
  lu_back = λ v h. ground arith;
  hex8_back = λ v h. ground arith;
  ip6_back = λ v count h whole. ground arith;
}

write_back_v6_lem_example :
    RoundTrip6.write_back_v6 sample_kernel sample_printer V6.flow_dst_ipaddr_e 4 idle6
    ≡ ok (bytes 4, idle6)
write_back_v6_lem_example =
    RoundTrip6.write_back_v6_lem sample_kernel sample_printer V6.flow_dst_ipaddr_e 4 idle6
      sample-ReadsBack6 RoundTrip6.plain_flow_dst_ipaddr_e idle6-IsReady
      (unfold V6.read_attribute in refl)
