-- ===== src/Tests/Wire.antt =====
-- The demo client over HTTP, at the sequencer's router.
use zk_rollup.Base.{◌≡◌}
use zk_rollup.Tests.Crates.{crypto, hex}
use zk_rollup.Tests.Clients.{alloy}
use zk_rollup.Tests.Wallets.{signer}
use zk_rollup.Tests.Serde.{serde, client_serde, agrees}
use zk_rollup.Tests.Web.{axum, axum-IsLawfulAxum, show_address}
use zk_rollup.Tests.Routes.{all_well}
use zk_rollup.Tests.Startup.{ctx}
use zk_rollup.Drivers.Demo.{demo}
use zk_rollup.Drivers.Wire.{demo_over}
use zk_rollup.Drivers.Wire.Reading.{deliver}
use zk_rollup.Drivers.Wire.Served.{told, demo_over-demo}

abbrev Offline : Type 0
Offline = Unit {0}

demo_over-demo_example :
    let (r, next) = demo all_well ctx.state in
    demo_over (deliver Offline show_address all_well) ctx
    ≡ (told Offline show_address all_well agrees.value_of r, record ctx { state = next })
demo_over-demo_example = demo_over-demo Offline show_address all_well ctx agrees axum-IsLawfulAxum
