-- ===== src/Web/Languages/Spanish.antt =====
-- web/src/lib/dictionaries.ts: the Spanish texts.
use miniledger.Base.{String, [], ◌∷◌, Map}

unfoldable pub es : Map String
es =
    ("common.signedIn", "Sesión iniciada")
    ∷ ("common.logout", "Cerrar sesión")
    ∷ ("common.language", "Idioma")
    ∷ ("common.cancel", "Cancelar")
    ∷ ("common.apiDocs", "Docs de la API")
    ∷ ("brand.suffix", "Dashboard")
    ∷ ("nav.overview", "Resumen")
    ∷ ("nav.accounts", "Cuentas")
    ∷ ("nav.transfer", "Transferir")
    ∷ ("nav.integrity", "Integridad")
    ∷ (
      "errors.unavailable",
      "El servicio del ledger no está disponible. Intentá de nuevo en un momento.",
    )
    ∷ (
      "errors.invalidCredentials",
      "Credenciales inválidas. Revisá el email y la contraseña e intentá de nuevo.",
    )
    ∷ (
      "errors.loginUnavailable",
      "El servicio de autorización no está disponible. Intentá de nuevo en un momento.",
    )
    ∷ ("login.title", "Iniciar sesión en MiniLedger")
    ∷ (
      "login.subtitle",
      "El dashboard se autentica contra AccessCore. Iniciá sesión con una cuenta de AccessCore que tenga la capacidad de operador del ledger.",
    )
    ∷ ("login.email", "Email")
    ∷ ("login.password", "Contraseña")
    ∷ ("login.submit", "Ingresar")
    ∷ (
      "login.demoHint",
      "Prellenado con la cuenta demo compartida, que inicia sesión vía AccessCore. Los datos demo se reinician cada noche.",
    )
    ∷ ("login.useDemo", "Usar cuenta demo")
    ∷ ("overview.title", "Resumen")
    ∷ (
      "overview.description",
      "Un ledger de doble entrada: el dinero se mueve entre cuentas como asientos balanceados, las transferencias son idempotentes, los balances se mantienen correctos bajo concurrencia, y cada asiento se encadena en un registro de auditoría a prueba de manipulación.",
    )
    ∷ ("overview.accountsTitle", "Cuentas")
    ∷ ("overview.accountsBody", "Abrí cuentas y observá cómo se mueven los balances.")
    ∷ ("overview.transferTitle", "Transferir")
    ∷ (
      "overview.transferBody",
      "Mové dinero con una idempotency key — los reintentos nunca duplican el gasto.",
    )
    ∷ ("overview.integrityTitle", "Integridad")
    ∷ (
      "overview.integrityBody",
      "Verificá la cadena de hashes por cuenta y probá que el dinero se conserva.",
    )
    ∷ ("overview.open", "Abrir")
    ∷ ("accounts.title", "Cuentas")
    ∷ (
      "accounts.description",
      "Tus cuentas y las cuentas de sistema compartidas. Los balances se guardan en unidades menores y se muestran acá formateados a la moneda.",
    )
    ∷ ("accounts.open", "Abrir cuenta")
    ∷ ("accounts.opening", "Abriendo…")
    ∷ ("accounts.currency", "Moneda")
    ∷ ("accounts.openTitle", "Abrir una cuenta")
    ∷ (
      "accounts.openDescription",
      "Crea una cuenta de usuario tuya, en la moneda elegida, con balance en cero.",
    )
    ∷ ("accounts.thAccount", "Cuenta")
    ∷ ("accounts.thType", "Tipo")
    ∷ ("accounts.thCurrency", "Moneda")
    ∷ ("accounts.thBalance", "Balance")
    ∷ ("accounts.empty", "Aún no hay cuentas. Abrí una para empezar.")
    ∷ ("accounts.system", "sistema")
    ∷ ("accounts.you", "vos")
    ∷ ("accounts.thActions", "Acciones")
    ∷ ("accounts.statement", "Estado")
    ∷ ("accounts.loadError", "No se pudieron cargar las cuentas del ledger.")
    ∷ ("statement.title", "Estado de cuenta")
    ∷ ("statement.back", "← Cuentas")
    ∷ ("statement.sectionTitle", "Asientos")
    ∷ (
      "statement.sectionDescription",
      "Cada asiento de esta cuenta en secuencia, con el monto y el balance que produjo — el historial crudo, solo-append.",
    )
    ∷ ("statement.thSeq", "Seq")
    ∷ ("statement.thDate", "Fecha (UTC)")
    ∷ ("statement.thTxn", "Transacción")
    ∷ ("statement.thAmount", "Monto")
    ∷ ("statement.thBalance", "Balance")
    ∷ ("statement.empty", "Aún no hay asientos en esta cuenta.")
    ∷ ("statement.loadMore", "Cargar más")
    ∷ ("statement.loading", "Cargando…")
    ∷ ("statement.notFound", "No existe esa cuenta, o no es visible para vos.")
    ∷ ("statement.loadError", "No se pudo cargar el estado de cuenta del ledger.")
    ∷ ("transfer.title", "Transferir")
    ∷ (
      "transfer.description",
      "Mové dinero entre cuentas. Depositá desde @world, mové entre tus cuentas, o retirá de vuelta a @world. Ambos lados se asientan juntos — el ledger queda balanceado.",
    )
    ∷ ("transfer.formTitle", "Nueva transferencia")
    ∷ (
      "transfer.formDescription",
      "Misma moneda, doble entrada. Una idempotency key hace que un reintento sea un no-op — nunca un doble gasto.",
    )
    ∷ ("transfer.from", "Desde")
    ∷ ("transfer.fromHint", "@world financia depósitos; tus cuentas financian transferencias.")
    ∷ ("transfer.to", "Hacia")
    ∷ ("transfer.noCounterparties", "No hay cuenta en la misma moneda para enviar")
    ∷ ("transfer.amount", "Monto")
    ∷ ("transfer.amountHint", "En {currency}, p. ej. 100.00")
    ∷ ("transfer.idempotencyKey", "Idempotency key")
    ∷ (
      "transfer.idempotencyHint",
      "Opcional. Reusá la misma key para reintentar sin riesgo — no duplicará el gasto.",
    )
    ∷ ("transfer.optional", "opcional")
    ∷ ("transfer.generate", "Generar")
    ∷ ("transfer.send", "Enviar transferencia")
    ∷ ("transfer.sending", "Enviando…")
    ∷ ("transfer.posted", "Asentada")
    ∷ ("transfer.needAccounts", "Abrí una cuenta primero para transferir.")
    ∷ ("integrity.title", "Integridad")
    ∷ (
      "integrity.description",
      "Probá que el ledger no fue manipulado: el dinero se conserva en todas las cuentas, y cada cuenta es una cadena de hashes intacta reconciliada con su balance.",
    )
    ∷ ("integrity.reverify", "Re-verificar")
    ∷ ("integrity.verifying", "Verificando…")
    ∷ ("integrity.conservationTitle", "Conservación del dinero")
    ∷ (
      "integrity.conservationDescription",
      "Cada asiento está balanceado, así que la suma de todas las cuentas debe ser exactamente cero — por moneda. Cualquier desvío significaría que se inventó o perdió valor.",
    )
    ∷ ("integrity.conserved", "Conservado")
    ∷ ("integrity.notConserved", "No conservado")
    ∷ ("integrity.conservationExplainer", "El total firmado de cada cuenta suma cero, por moneda.")
    ∷ ("integrity.chainTitle", "Cadena de hashes por cuenta")
    ∷ (
      "integrity.chainDescription",
      "Cada asiento se encadena (SHA-256) al anterior y se reconcilia con el balance almacenado. Un asiento manipulado o faltante rompe la cadena en una secuencia conocida.",
    )
    ∷ ("integrity.thAccount", "Cuenta")
    ∷ ("integrity.thPostings", "Asientos")
    ∷ ("integrity.thBalance", "Balance")
    ∷ ("integrity.thChain", "Cadena")
    ∷ ("integrity.intact", "Intacta")
    ∷ ("integrity.broken", "Rota en #{seq}")
    ∷ ("integrity.noAccounts", "Aún no hay cuentas para verificar.")
    ∷ ("integrity.loadError", "No se pudo cargar el reporte de integridad del ledger.")
    ∷ []
